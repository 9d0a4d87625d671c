-- ===== src/Lockfree/Stack/Threads/Linear.antt =====
-- The stack of one producer is the atomic stack to its callers.
use my_practise.Base.{ℕ, List}
use my_practise.Lockfree.Sanitizer
use my_practise.Lockfree.Sanitizer.{Sanitizer}
use my_practise.Lockfree.Calls.{Event, Atomic}
use my_practise.Lockfree.Stack.Threads
use my_practise.Lockfree.Stack.Threads.{Machine, AtomicRun}
use my_practise.Lockfree.Stack.Threads.Ghosts.{Stands}

abbrev Simulated : ℕ → Machine → List Event → Type 0
Simulated p m es = (a : Atomic) × AtomicRun a es × Stands p m a
