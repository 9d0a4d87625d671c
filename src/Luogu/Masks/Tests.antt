-- ===== src/Luogu/Masks/Tests.antt =====
-- The sets {1, 5} and {5, 7}.
use my_practise.Base.{ℕ, ◌≡◌, refl, List, [], ◌∷◌}
use my_practise.Luogu.Masks.{print_sets}

abbrev first : List ℕ
first = 1 ∷ 5 ∷ []

abbrev second : List ℕ
second = 5 ∷ 7 ∷ []

print_sets-either : (print_sets first second).either ≡ 1 ∷ 5 ∷ 7 ∷ []
unfolding print_sets
print_sets-either = refl
