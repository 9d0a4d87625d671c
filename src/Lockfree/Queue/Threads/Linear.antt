-- ===== src/Lockfree/Queue/Threads/Linear.antt =====
-- The queue of many threads is the atomic queue to its callers.
use my_practise.Base.{ℕ, List}
use my_practise.Lockfree.Calls.{Event, Atomic}
use my_practise.Lockfree.Queue.Threads.{Machine, AtomicRun}
use my_practise.Lockfree.Queue.Threads
use my_practise.Lockfree.Queue.Threads.Ghosts.{Owner, Ghost, Stands}

-- Only the dummy is linked.
dummy_only : ℕ → Ghost
dummy_only dummy = record {
  node_at = λ i. dummy;
  value_at = λ i. 0;
  place = λ b. 0;
  head_at = 0;
  tail_at = 0;
  last = 0;
  owner = λ b. Owner.nobody;
}

abbrev Simulated : Machine → List Event → Type 0
Simulated m es = (a : Atomic) × AtomicRun a es × Stands m a
