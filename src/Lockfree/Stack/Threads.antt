-- ===== src/Lockfree/Stack/Threads.antt =====
-- lockfree/Concurrent.hpp: one thread that calls `Push` and any number that call `Pop` of one
-- `LockFreeListStack`, interleaved after every access to shared memory, and the stack whose calls
-- take effect at once, against which they are compared.
pub mod Ghosts
mod Shapes
mod Removals
mod Waste
mod Steps
pub mod Linear
mod Tests
use my_practise.Base.{
  ℕ, ◌≡◌, ◌≢◌, Bool, true, false, Option, none, some, List, [], ◌∷◌, ◌⊎◌, ◌==◌, if◌then◌else◌,
}
use my_practise.Lockfree.Sanitizer
use my_practise.Lockfree.Calls.{Event, Call, Atomic, called, nothing_called}
use my_practise.Lockfree.Stack.{Stack, Push, Pop, push_step, pop_step, assign}
use my_practise.Lockfree.Stack.Lifetime.{make_stack}

abbrev pub Listed : ℕ → List ℕ → Type 0
Listed a [] = ⊥
Listed a (b ∷ bs) = (a ≡ b) ⊎ Listed a bs

pub data Thread : Type 0 where
  idle : Thread
  pushing : (pc : Push) → Thread
  popping : (pc : Pop) → Thread

-- `used` has the addresses that `new` has given out.
pub record Machine : Type 0 where
  pub stack : Stack
  pub used : ℕ → Bool
  pub threads : ℕ → Thread

abbrev pub moved : Machine → ℕ → Thread → Stack → Machine
moved m t th s = record m { stack = s; threads = assign m.threads t th }

abbrev pub moved_push : Machine → ℕ → Push × Stack → Machine
moved_push m t r = moved m t (Thread.pushing r.0) r.1

abbrev pub moved_pop : Machine → ℕ → Pop × Stack → Machine
moved_pop m t r = moved m t (Thread.popping r.0) r.1

-- A stack in which no thread is.
unfoldable pub made : ℕ → Bool → (ℕ → ℕ) → (ℕ → Option ℕ) → Machine
unfolding make_stack
made thread_max open_sanitizer nexts values = record {
  stack = make_stack thread_max open_sanitizer nexts values;
  used = λ a. false;
  threads = λ t. Thread.idle;
}

abbrev pub relinked : Machine → ℕ → ℕ → Machine
relinked m b n = record m { stack = record m.stack { next = assign m.stack.next b n } }

abbrev pub cleaned : Machine → Machine
cleaned m = record m {
  stack = record m.stack { sanitizer = Sanitizer.back_loop_delete m.stack.sanitizer };
}

-- The runs from a machine, with their events, the last one first. Only the producer calls `Push`, and
-- `new` gives no address twice. The sanitizer, which links its delayed nodes through `next_`, may
-- write the successor of a delayed node at any time, and its cleaner passes at any time.
pub data Run (producer : ℕ) (m0 : Machine) : Machine → List Event → Type 0 where
  begin : Run producer m0 m0 []
  call_push :
      {m : Machine} {es : List Event} (v node : ℕ)
      → Run producer m0 m es
      → m.threads producer ≡ Thread.idle
      → m.used node ≡ false
      → node ≢ 0
      → Run producer m0
          (record m {
            used = assign m.used node true;
            threads = assign m.threads producer (Thread.pushing (Push.start node v));
          })
          (Event.push_called producer v ∷ es)
  step_push :
      {m : Machine} {es : List Event} (t : ℕ) (pc : Push)
      → Run producer m0 m es
      → m.threads t ≡ Thread.pushing pc
      → Run producer m0 (moved_push m t (push_step pc m.stack)) es
  return_push :
      {m : Machine} {es : List Event} (t : ℕ)
      → Run producer m0 m es
      → m.threads t ≡ Thread.pushing Push.pushed
      → Run producer m0
          (record m { threads = assign m.threads t Thread.idle })
          (Event.push_returned t ∷ es)
  call_pop :
      {m : Machine} {es : List Event} (t : ℕ)
      → Run producer m0 m es
      → m.threads t ≡ Thread.idle
      → Run producer m0
          (record m { threads = assign m.threads t (Thread.popping Pop.load) })
          (Event.pop_called t ∷ es)
  step_pop :
      {m : Machine} {es : List Event} (t : ℕ) (hp : Option ℕ) (pc : Pop)
      → Run producer m0 m es
      → m.threads t ≡ Thread.popping pc
      → Run producer m0 (moved_pop m t (pop_step hp pc m.stack)) es
  relink :
      {m : Machine} {es : List Event} (b n : ℕ)
      → Run producer m0 m es
      → Listed b m.stack.sanitizer.backward_deleting_list
      → Run producer m0 (relinked m b n) es
  clean : {m : Machine} {es : List Event} → Run producer m0 m es → Run producer m0 (cleaned m) es
  return_pop :
      {m : Machine} {es : List Event} (t : ℕ) (ret : Option ℕ)
      → Run producer m0 m es
      → m.threads t ≡ Thread.popping (Pop.popped ret)
      → Run producer m0
          (record m { threads = assign m.threads t Thread.idle })
          (Event.pop_returned t ret ∷ es)

-- The runs of the atomic stack: between the call and the return of each operation is one step that
-- has its whole effect.
pub data AtomicRun : Atomic → List Event → Type 0 where
  begin : AtomicRun nothing_called []
  call_push :
      {a : Atomic} {es : List Event} (t v : ℕ)
      → AtomicRun a es
      → a.calls t ≡ Call.idle
      → AtomicRun (called a t (Call.pushing v)) (Event.push_called t v ∷ es)
  push :
      {a : Atomic} {es : List Event} (t v : ℕ)
      → AtomicRun a es
      → a.calls t ≡ Call.pushing v
      → AtomicRun (record (called a t Call.pushed) { contents = v ∷ a.contents }) es
  return_push :
      {a : Atomic} {es : List Event} (t : ℕ)
      → AtomicRun a es
      → a.calls t ≡ Call.pushed
      → AtomicRun (called a t Call.idle) (Event.push_returned t ∷ es)
  call_pop :
      {a : Atomic} {es : List Event} (t : ℕ)
      → AtomicRun a es
      → a.calls t ≡ Call.idle
      → AtomicRun (called a t Call.popping) (Event.pop_called t ∷ es)
  pop :
      {a : Atomic} {es : List Event} (t v : ℕ) (rest : List ℕ)
      → AtomicRun a es
      → a.calls t ≡ Call.popping
      → a.contents ≡ v ∷ rest
      → AtomicRun (record (called a t (Call.popped (some v))) { contents = rest }) es
  pop_empty :
      {a : Atomic} {es : List Event} (t : ℕ)
      → AtomicRun a es
      → a.calls t ≡ Call.popping
      → a.contents ≡ []
      → AtomicRun (called a t (Call.popped none)) es
  return_pop :
      {a : Atomic} {es : List Event} (t : ℕ) (ret : Option ℕ)
      → AtomicRun a es
      → a.calls t ≡ Call.popped ret
      → AtomicRun (called a t Call.idle) (Event.pop_returned t ret ∷ es)
