-- ===== src/Lockfree/Queue/Threads/Tests.antt =====
-- Thread 0 links its node, and thread 1 moves the tail for it and pops the value before the push
-- returns.
use my_practise.Base.{false, none, some, List, [], ◌∷◌}
use my_practise.Lockfree.Sanitizer
use my_practise.Lockfree.Calls.{Event}
use my_practise.Lockfree.Queue.Threads
use my_practise.Lockfree.Queue.Threads.{Machine, made}

abbrev start : Machine
start = made 2 false 10 (λ b. 0) (λ b. none)

abbrev events : List Event
events = Event.pop_returned 1 (some 7) ∷ Event.pop_called 1 ∷ Event.push_called 0 7 ∷ []
