-- ===== src/Lockfree/Queue/Threads.antt =====
-- lockfree/Concurrent.hpp: any number of threads that call `Push` and `Pop` of one
-- `LockFreeListQueue`, interleaved after every access to shared memory, and the queue whose calls
-- take effect at once, against which they are compared. A thread is a number.
pub mod Ghosts
mod Shapes
mod Ends
mod Steps
mod Pushes
mod Pops
pub mod Linear
mod Tests
use my_practise.Base.{
  ℕ, ◌≡◌, ◌≢◌, Bool, true, false, Option, none, some, List, [], ◌∷◌, ◌++◌, ◌==◌, if◌then◌else◌,
}
use my_practise.Lockfree.Stack.{assign}
use my_practise.Lockfree.Calls.{Event, Call, Atomic, called, nothing_called}
use my_practise.Lockfree.Queue.{Queue, QueuePush, QueuePop, queue_push_step, queue_pop_step}
use my_practise.Lockfree.Queue.Lifetime.{make_queue}

pub data Thread : Type 0 where
  idle : Thread
  pushing : (pc : QueuePush) → Thread
  popping : (pc : QueuePop) → Thread

-- `used` has the addresses that `new` has given out.
pub record Machine : Type 0 where
  pub queue : Queue
  pub used : ℕ → Bool
  pub threads : ℕ → Thread

abbrev pub moved_push : Machine → ℕ → QueuePush × Queue → Machine
moved_push m t r = record m { queue = r.1; threads = assign m.threads t (Thread.pushing r.0) }

abbrev pub moved_pop : Machine → ℕ → QueuePop × Queue → Machine
moved_pop m t r = record m { queue = r.1; threads = assign m.threads t (Thread.popping r.0) }

-- A queue in which no thread is, around its dummy.
unfoldable pub made : ℕ → Bool → ℕ → (ℕ → ℕ) → (ℕ → Option ℕ) → Machine
unfolding make_queue
made thread_max open_sanitizer dummy nexts values = record {
  queue = make_queue thread_max open_sanitizer dummy nexts values;
  used = assign (λ a. false) dummy true;
  threads = λ t. Thread.idle;
}

-- The runs from a machine, with their events, the last one first. `new` gives no address twice, and
-- no node is delayed: the sanitizer links its delayed nodes through `next_`, where a pop may still
-- read it.
pub data Run (m0 : Machine) : Machine → List Event → Type 0 where
  begin : Run m0 m0 []
  call_push :
      {m : Machine} {es : List Event} (t v node : ℕ)
      → Run m0 m es
      → m.threads t ≡ Thread.idle
      → m.used node ≡ false
      → node ≢ 0
      → Run m0
          (record m {
            used = assign m.used node true;
            threads = assign m.threads t (Thread.pushing (QueuePush.start node v));
          })
          (Event.push_called t v ∷ es)
  step_push :
      {m : Machine} {es : List Event} (t : ℕ) (hp : Option ℕ) (pc : QueuePush)
      → Run m0 m es
      → m.threads t ≡ Thread.pushing pc
      → Run m0 (moved_push m t (queue_push_step hp pc m.queue)) es
  return_push :
      {m : Machine} {es : List Event} (t : ℕ)
      → Run m0 m es
      → m.threads t ≡ Thread.pushing QueuePush.pushed
      → Run m0 (record m { threads = assign m.threads t Thread.idle }) (Event.push_returned t ∷ es)
  call_pop :
      {m : Machine} {es : List Event} (t : ℕ)
      → Run m0 m es
      → m.threads t ≡ Thread.idle
      → Run m0
          (record m { threads = assign m.threads t (Thread.popping QueuePop.load_head) })
          (Event.pop_called t ∷ es)
  step_pop :
      {m : Machine} {es : List Event} (t : ℕ) (hp : Option ℕ) (pc : QueuePop)
      → Run m0 m es
      → m.threads t ≡ Thread.popping pc
      → (queue_pop_step hp pc m.queue).1.sanitizer.backward_deleting_list ≡ []
      → Run m0 (moved_pop m t (queue_pop_step hp pc m.queue)) es
  return_pop :
      {m : Machine} {es : List Event} (t : ℕ) (ret : Option ℕ)
      → Run m0 m es
      → m.threads t ≡ Thread.popping (QueuePop.popped ret)
      → Run m0
          (record m { threads = assign m.threads t Thread.idle })
          (Event.pop_returned t ret ∷ es)

-- The runs of the atomic queue: between the call and the return of each operation is one step that
-- has its whole effect.
pub data AtomicRun : Atomic → List Event → Type 0 where
  begin : AtomicRun nothing_called []
  call_push :
      {a : Atomic} {es : List Event} (t v : ℕ)
      → AtomicRun a es
      → a.calls t ≡ Call.idle
      → AtomicRun (called a t (Call.pushing v)) (Event.push_called t v ∷ es)
  push :
      {a : Atomic} {es : List Event} (t v : ℕ)
      → AtomicRun a es
      → a.calls t ≡ Call.pushing v
      → AtomicRun (record (called a t Call.pushed) { contents = a.contents ++ v ∷ [] }) es
  return_push :
      {a : Atomic} {es : List Event} (t : ℕ)
      → AtomicRun a es
      → a.calls t ≡ Call.pushed
      → AtomicRun (called a t Call.idle) (Event.push_returned t ∷ es)
  call_pop :
      {a : Atomic} {es : List Event} (t : ℕ)
      → AtomicRun a es
      → a.calls t ≡ Call.idle
      → AtomicRun (called a t Call.popping) (Event.pop_called t ∷ es)
  pop :
      {a : Atomic} {es : List Event} (t v : ℕ) (rest : List ℕ)
      → AtomicRun a es
      → a.calls t ≡ Call.popping
      → a.contents ≡ v ∷ rest
      → AtomicRun (record (called a t (Call.popped (some v))) { contents = rest }) es
  pop_empty :
      {a : Atomic} {es : List Event} (t : ℕ)
      → AtomicRun a es
      → a.calls t ≡ Call.popping
      → a.contents ≡ []
      → AtomicRun (called a t (Call.popped none)) es
  return_pop :
      {a : Atomic} {es : List Event} (t : ℕ) (ret : Option ℕ)
      → AtomicRun a es
      → a.calls t ≡ Call.popped ret
      → AtomicRun (called a t Call.idle) (Event.pop_returned t ret ∷ es)
