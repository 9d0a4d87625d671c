-- ===== src/Lockfree/Queue/Lifetime.antt =====
-- lockfree/Concurrent.hpp: how a `LockFreeListQueue` comes into being, and its destructor, when no other
-- thread uses the queue any more.
use my_practise.Base.{
  Bool, length, ℕ, zero, suc, ◌≡◌, refl, ap, ◌∙◌, Option, none, some, [], ◌∷◌, eq→==, arith,
}
use my_practise.Lockfree.Sanitizer
use my_practise.Lockfree.Stack.{assign}
use my_practise.Lockfree.Stack.Chain.{Cells}
use my_practise.Lockfree.Queue.{Queue, QueuePop, queue_pop_step}
use my_practise.Lockfree.Queue.Line.{Line}
use my_practise.Lockfree.Queue.Sequence.{queue_pop_steps, queue_pop_fifo}

-- `QueueNode`: `data_ptr_`, and `next_`.
pub record QueueNode : Type 0 where
  pub data_ptr : Option ℕ
  pub next_ptr : ℕ

-- The constructor from a value.
unfoldable pub make_queue_node : ℕ → ℕ → QueueNode
make_queue_node value next = record { data_ptr = some value; next_ptr = next }

-- The constructor; `new` gives the dummy, and the rest of the memory is as it is found.
unfoldable pub make_queue : ℕ → Bool → ℕ → (ℕ → ℕ) → (ℕ → Option ℕ) → Queue
make_queue thread_max open_sanitizer dummy nexts values = record {
  head = dummy;
  tail = dummy;
  size = 0;
  next = assign nexts dummy 0;
  value = assign values dummy none;
  sanitizer = Sanitizer.make thread_max open_sanitizer;
}

-- What `Pop` returned.
abbrev pub queue_popped : QueuePop → Option (Option ℕ)
queue_popped (QueuePop.popped ret) = some ret
queue_popped _ = none

-- `delete head_.node_ptr_.load()`
abbrev pub delete_dummy : Queue → Queue
delete_dummy q = record q { sanitizer = Sanitizer.immediate_delete q.head q.sanitizer }

-- `while (Pop());` on fuel, and the dummy: none is no end within it, or no return from `Pop` within
-- eleven steps.
unfoldable pub destroy_queue : Option ℕ → ℕ → Queue → Option Queue
unfolding queue_pop_steps
destroy_queue hp zero q = none
destroy_queue hp (suc fuel) q =
    let r = queue_pop_steps hp 11 QueuePop.load_head q in
    elim (queue_popped r.0) [
      | none ↦ none
      | some none ↦ some (delete_dummy r.1)
      | some (some v) ↦ destroy_queue hp fuel r.1
    ]

destroy_queue-value :
    (hp : Option ℕ) (fuel v : ℕ) (q q' : Queue)
    → queue_pop_steps hp 11 QueuePop.load_head q ≡ (QueuePop.popped (some v), q')
    → destroy_queue hp (suc fuel) q ≡ destroy_queue hp fuel q'
unfolding destroy_queue
destroy_queue-value hp fuel v q q' e = rw (destroy_queue, e) (ap (λ r. destroy_queue hp fuel r.1) e)

queue_pop_steps-empty :
    (hp : Option ℕ) (q : Queue)
    → q.head ≡ q.tail
    → q.next q.head ≡ 0
    → queue_pop_steps hp 11 QueuePop.load_head q ≡ (QueuePop.popped none, q)
unfolding queue_pop_steps queue_pop_step
queue_pop_steps-empty hp q e z = rw (eq→== q.head q.tail e, z) refl

destroy_queue-empty :
    (hp : Option ℕ) (fuel : ℕ) (q : Queue)
    → q.head ≡ q.tail
    → q.next q.head ≡ 0
    → destroy_queue hp (suc fuel) q ≡ some (delete_dummy q)
unfolding destroy_queue
destroy_queue-empty hp fuel q e z =
    rw (destroy_queue, queue_pop_steps-empty hp q e z)
      (ap (λ r. some (delete_dummy r.1)) (queue_pop_steps-empty hp q e z))

-- The destructor's loop ends, within one round for each value and one more, with the dummy as the
-- only node, and deletes that one.
pub destroy_queue-all :
    (hp : Option ℕ) (q : Queue) (xs : Cells)
    → Line q.next q.value q.head xs q.tail
    → (q' : Queue) × (destroy_queue hp (suc (length xs)) q ≡ some (delete_dummy q'))
      × (q'.head ≡ q'.tail)
      × (q'.next q'.head ≡ 0)
destroy_queue-all hp q [] (e, z) = (q, destroy_queue-empty hp 0 q e z, e, z)
destroy_queue-all hp q ((a, v) ∷ xs) l =
    let (q1, run, rest, size) = queue_pop_fifo hp a v q xs l in
    let (q', run', same, last) = destroy_queue-all hp q1 xs rest in
    (q', destroy_queue-value hp (suc (length xs)) v q q1 run ∙ run', same, last)

-- A new queue is empty.
pub make_queue-Line :
    (thread_max dummy : ℕ) (open_sanitizer : Bool) (nexts : ℕ → ℕ) (values : ℕ → Option ℕ)
    → let q = make_queue thread_max open_sanitizer dummy nexts values in
      Line q.next q.value q.head [] q.tail
unfolding make_queue
make_queue-Line thread_max dummy open_sanitizer nexts values = (refl, ground arith)
