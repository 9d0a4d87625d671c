-- ===== src/Patterns/Tests.antt =====
-- A user who logs in behind the administrator, and two decorators.
use my_practise.Base.{ℕ, ◌≡◌, refl, List, [], ◌∷◌, some, none}
use my_practise.Patterns.{Printed, admin, make_proxy, proxy_execute, login, Decorator}
use my_practise.Patterns.Orders.{logins}

abbrev users : List (List ℕ × List ℕ)
users = (admin, []) ∷ (65 ∷ [], []) ∷ []

-- The second user keeps the administrator's rights.
proxy_execute-second : proxy_execute (logins users make_proxy) ≡ Printed.target_executes
unfolding logins proxy_execute login
proxy_execute-second = refl

abbrev outer : Decorator ℕ
outer = record { pre_call = some (1 ∷ []); post_call = some (5 ∷ []) }

abbrev inner : Decorator ℕ
inner = record { pre_call = some (2 ∷ []); post_call = none }
