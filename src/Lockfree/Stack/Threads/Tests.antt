-- ===== src/Lockfree/Stack/Threads/Tests.antt =====
-- Thread 0 pushes, and thread 1 pops the value before the push has counted it.
use my_practise.Base.{false, none, some, List, [], ◌∷◌}
use my_practise.Lockfree.Calls.{Event}
use my_practise.Lockfree.Stack.Threads
use my_practise.Lockfree.Stack.Threads.{Machine, made}

abbrev start : Machine
start = made 2 false (λ b. 0) (λ b. none)

abbrev events : List Event
events = Event.pop_returned 1 (some 7) ∷ Event.pop_called 1 ∷ Event.push_called 0 7 ∷ []
