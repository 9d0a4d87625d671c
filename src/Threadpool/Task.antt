-- ===== src/Threadpool/Task.antt =====
-- threadpool/TaskWrapper.hpp, and threadpool/ThreadPool.hpp, `emplace` and `Task`: a call packed as a task with a
-- future, and the running of the tasks in the queue. All results have one type R. A future is a number, and the
-- value of a promise is there when the packaged call has run.
pub mod Results
mod Tests
use my_practise.Base.{ℕ, suc, ◌+◌, List, [], ◌∷◌, ◌++◌, Option, none, some, ◌==◌, if◌then◌else◌}

-- `std::packaged_task` on a call, whose function and arguments are copied.
pub record PackagedTask (R : Type 0) : Type 0 where
  pub future : ℕ
  pub fn : Unit {0} → R

-- `TaskWrapper`: the pointer `mFnPtr`.
pub record TaskWrapper (R : Type 0) : Type 0 where
  pub fn_ptr : Option (PackagedTask R)

-- `ThreadPoolImpl::Task`; a name is the list of its bytes.
pub record Task (R : Type 0) : Type 0 where
  pub task : TaskWrapper R
  pub name : List ℕ

pub record Posts (R : Type 0) : Type 0 where
  pub next_future : ℕ
  pub results : ℕ → Option R
  pub tasks : List (Task R)

module _ {R : Type 0} where
  unfoldable pub no_posts : Posts R
  no_posts = record { next_future = 0; results = λ i. none; tasks = [] }

  -- The default constructor, the one from a callable, and the move, with what it leaves.
  unfoldable pub empty_wrapper : TaskWrapper R
  empty_wrapper = record { fn_ptr = none }

  unfoldable pub wrap : PackagedTask R → TaskWrapper R
  wrap fn = record { fn_ptr = some fn }

  unfoldable pub move_wrapper : TaskWrapper R → TaskWrapper R × TaskWrapper R
  unfolding empty_wrapper
  move_wrapper w = (w, empty_wrapper)

  -- `operator=` of `Task`: the task assigned to, and the one that is moved.
  unfoldable pub assign_task : Task R → Task R × Task R
  unfolding move_wrapper
  assign_task from = (
    record { task = (move_wrapper from.task).0; name = from.name },
    record from { task = (move_wrapper from.task).1 },
  )

  -- `operator()` of `TaskWrapper`; none is a null pointer followed.
  unfoldable pub call_wrapper : TaskWrapper R → Posts R → Option (Posts R)
  call_wrapper w s = elim w.fn_ptr [
    | none ↦ none
    | some p ↦
        some (record s { results = λ i. if i == p.future then some (p.fn tt) else s.results i })
  ]

  -- `postTask` under its lock.
  unfoldable pub post_task : TaskWrapper R → List ℕ → Posts R → Posts R
  post_task w name s = record s { tasks = s.tasks ++ record { task = w; name = name } ∷ [] }

  -- `emplace` with a name, and without.
  unfoldable pub emplace_named : {A : Type 0} → List ℕ → (A → R) → A → Posts R → ℕ × Posts R
  unfolding post_task wrap
  emplace_named name fn args s = (
    s.next_future,
    post_task (wrap (record { future = s.next_future; fn = λ u. fn args })) name
        (record s { next_future = suc s.next_future }),
  )

  unfoldable pub emplace : {A : Type 0} → (A → R) → A → Posts R → ℕ × Posts R
  unfolding emplace_named
  emplace fn args s = emplace_named [] fn args s

  -- The tasks of a queue, front first, called one after the other.
  unfoldable pub run_each : List (Task R) → Posts R → Option (Posts R)
  unfolding call_wrapper
  run_each [] s = some s
  run_each (t ∷ ts) s = elim (call_wrapper t.task s) [ none ↦ none | some s' ↦ run_each ts s' ]

  -- `while(!tasks.empty())` of the destructor.
  unfoldable pub run_left_jobs : Posts R → Option (Posts R)
  unfolding run_each
  run_left_jobs s = run_each s.tasks (record s { tasks = [] })
