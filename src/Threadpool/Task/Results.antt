-- ===== src/Threadpool/Task/Results.antt =====
-- The futures of the emplaced calls get the results of these calls.
use my_practise.Base.{
  ℕ, suc, ◌<◌, ◌≡◌, refl, sym, ap, ap₂, ◌∙◌, List, [], ◌∷◌, ◌++◌, map, append-nil, append_assoc,
  some, ◌==◌, if◌then◌else◌, eq→==, arith,
}
use my_practise.Threadpool.Task.{
  Task, Posts, no_posts, call_wrapper, emplace, run_each, run_left_jobs,
}

module _ {A R : Type 0} where
  -- Calls emplaced one after the other: their futures, and the pool.
  unfoldable pub emplace_all : List ((A → R) × A) → Posts R → List ℕ × Posts R
  emplace_all [] s = ([], s)
  emplace_all ((fn, args) ∷ calls) s =
      let r = emplace fn args s in let rest = emplace_all calls r.1 in (r.0 ∷ rest.0, rest.1)

  -- The tasks of the calls, and their futures, from a number on.
  abbrev tasks_from : ℕ → List ((A → R) × A) → List (Task R)
  tasks_from k [] = []
  tasks_from k ((fn, args) ∷ calls) =
      record {
        task = record { fn_ptr = some (record { future = k; fn = λ u. fn args }) };
        name = [];
      }
      ∷ tasks_from (suc k) calls

  abbrev futures_from : ℕ → List ((A → R) × A) → List ℕ
  futures_from k [] = []
  futures_from k (c ∷ calls) = k ∷ futures_from (suc k) calls

  emplace_all-tasks :
      (calls : List ((A → R) × A)) (s : Posts R)
      → ((emplace_all calls s).1.tasks ≡ s.tasks ++ tasks_from s.next_future calls)
        × ((emplace_all calls s).0 ≡ futures_from s.next_future calls)
  unfolding emplace_all emplace
  emplace_all-tasks [] s = (sym (append-nil s.tasks), refl)
  emplace_all-tasks ((fn, args) ∷ calls) s =
      let (e, f) = emplace_all-tasks calls (emplace fn args s).1 in
      (
        e ∙ append_assoc s.tasks _ (tasks_from (suc s.next_future) calls),
        ap (λ is. s.next_future ∷ is) f,
      )

  run_each-results :
      (calls : List ((A → R) × A)) (k : ℕ) (s : Posts R)
      → (s' : Posts R) × (run_each (tasks_from k calls) s ≡ some s')
        × ((j : ℕ) → j < k → s'.results j ≡ s.results j)
        × (map s'.results (futures_from k calls) ≡ map (λ c. some (c.0 c.1)) calls)
  unfolding run_each call_wrapper
  run_each-results [] k s = (s, refl, (λ j h. refl), refl)
  run_each-results ((fn, args) ∷ calls) k s =
      let s1 : Posts R = record s {
        results = λ i. if i == k then some (fn args) else s.results i;
      } in
      let (s', run, keep, rest) = run_each-results calls (suc k) s1 in
      (
        s',
        run,
        (λ j h. keep j (omega arith) ∙ ground arith),
        ap₂ (λ x xs. x ∷ xs) (keep k (omega arith) ∙ rw (eq→== k k refl) refl) rest,
      )

  -- When an empty pool gets calls by emplace and then runs the tasks in its queue, none fails, and
  -- every call's future has the result of the call.
  pub run_left_jobs-emplace_all :
      (calls : List ((A → R) × A))
      → (s : Posts R) × (run_left_jobs (emplace_all calls no_posts).1 ≡ some s)
        × (map s.results (emplace_all calls no_posts).0 ≡ map (λ c. some (c.0 c.1)) calls)
  unfolding run_left_jobs no_posts
  run_left_jobs-emplace_all calls =
      let (e, f) = emplace_all-tasks calls no_posts in
      let posts = (emplace_all calls no_posts).1 in
      let (s, run, keep, values) = run_each-results calls 0 (record posts { tasks = [] }) in
      (
        s,
        ap (λ ts. run_each ts (record posts { tasks = [] })) e ∙ run,
        ap (map s.results) f ∙ values,
      )
