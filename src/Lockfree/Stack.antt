-- ===== src/Lockfree/Stack.antt =====
-- lockfree/Concurrent.hpp, `LockFreeListStack`: `Push` and `Pop` as steps of one access to shared
-- memory each, so that other threads may run between any two. A node is its address, 0 the null
-- pointer; `next` and `value` are the members `next_` and `data_ptr_` of the node at an address.
pub mod Chain
pub mod Lifo
pub mod Mislink
pub mod Lifetime
pub mod Threads
mod Tests
use my_practise.Base.{
  ℕ, ◌+◌, ◌-◌, ◌%◌, ◌^◌, Bool, true, false, Option, none, some, ◌==◌, if◌then◌else◌, List, [], ◌∷◌,
}
use my_practise.Lockfree.Sanitizer
use my_practise.Lockfree.Sanitizer.{Sanitizer}

pub record Stack : Type 0 where
  pub head : ℕ
  pub size : ℕ
  pub next : ℕ → ℕ
  pub value : ℕ → Option ℕ
  pub sanitizer : Sanitizer

-- `f[a] = v`
abbrev pub assign {ℓ} : {A : Type ℓ} → (ℕ → A) → ℕ → A → ℕ → A
assign f a v b = if a == b then v else f b

-- Where a thread stands in `Push`; `expected` is the outer `ori_node_ptr`.
pub data Push : Type 0 where
  start : (node v : ℕ) → Push  -- `node` is what `new` will return
  swap : (expected node : ℕ) → Push  -- at the compare-exchange
  reload : (expected node : ℕ) → Push  -- in the body of the loop
  count : Push
  pushed : Push

-- The body of the loop declares an `ori_node_ptr` of its own: the outer one keeps the value that the
-- failed compare-exchange left there.
unfoldable pub push_step : Push → Stack → Push × Stack
push_step (Push.start node v) s = (
  Push.swap s.head node,
  record s { next = assign s.next node s.head; value = assign s.value node (some v) },
)
push_step (Push.swap expected node) s =
    if s.head == expected
    then (Push.count, record s { head = node })
    else (Push.reload s.head node, s)
push_step (Push.reload expected node) s =
    (Push.swap expected node, record s { next = assign s.next node s.head })
push_step Push.count s = (Push.pushed, record s { size = (s.size + 1) % 2 ^ 64 })
push_step Push.pushed s = (Push.pushed, s)

-- Where a thread stands in `Pop`.
pub data Pop : Type 0 where
  load : Pop
  test : (ori : ℕ) → Pop  -- at the head of the loop
  recheck : (ori : ℕ) → Pop  -- behind `sanitizer.access`
  read : (ori : ℕ) → Pop  -- before the read of `new_node_ptr->next_`
  swap : (ori next : ℕ) → Pop  -- at the compare-exchange
  take : (ori : ℕ) → Pop  -- behind it: `ret.swap`
  count : (ori : ℕ) (ret : Option ℕ) → Pop
  clear : (ori : ℕ) (ret : Option ℕ) → Pop
  free : (ori : ℕ) (ret : Option ℕ) → Pop
  popped : (ret : Option ℕ) → Pop

-- `hp` is the thread's registration with the sanitizer.
unfoldable pub pop_step : Option ℕ → Pop → Stack → Pop × Stack
pop_step hp Pop.load s = (Pop.test s.head, s)
pop_step hp (Pop.test ori) s =
    if ori == 0
    then (Pop.popped none, s)
    else (Pop.recheck ori, record s { sanitizer = (Sanitizer.access hp ori s.sanitizer).1 })
pop_step hp (Pop.recheck ori) s = if s.head == ori then (Pop.read ori, s) else (Pop.test s.head, s)
pop_step hp (Pop.read ori) s = (Pop.swap ori (s.next ori), s)
pop_step hp (Pop.swap ori next) s =
    if s.head == ori then (Pop.take ori, record s { head = next }) else (Pop.test ori, s)
pop_step hp (Pop.take ori) s =
    (Pop.count ori (s.value ori), record s { value = assign s.value ori none })
pop_step hp (Pop.count ori ret) s =
    (Pop.clear ori ret, record s { size = (s.size + 2 ^ 64 - 1) % 2 ^ 64 })
pop_step hp (Pop.clear ori ret) s =
    (Pop.free ori ret, record s { sanitizer = (Sanitizer.reset hp s.sanitizer).1 })
pop_step hp (Pop.free ori ret) s =
    (Pop.popped ret, record s { sanitizer = (Sanitizer.release ori s.sanitizer).1 })
pop_step hp (Pop.popped ret) s = (Pop.popped ret, s)

-- A call that no other thread disturbs, for a number of steps.
unfoldable pub push_steps : ℕ → Push → Stack → Push × Stack
push_steps ℕ.zero pc s = (pc, s)
push_steps (ℕ.suc n) pc s = let (pc', s') = push_step pc s in push_steps n pc' s'

unfoldable pub pop_steps : Option ℕ → ℕ → Pop → Stack → Pop × Stack
pop_steps hp ℕ.zero pc s = (pc, s)
pop_steps hp (ℕ.suc n) pc s = let (pc', s') = pop_step hp pc s in pop_steps hp n pc' s'
