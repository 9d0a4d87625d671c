-- ===== src/Luogu/Prefix/Tests.antt =====
-- Two queries on three numbers.
use my_practise.Base.{◌≡◌, refl, List, [], ◌∷◌, ℤ, pos, negsuc, ◌+ℤ◌, ◌-ℤ◌}
use my_practise.Luogu.Prefix.{answers}

abbrev numbers : List ℤ
numbers = pos 4 ∷ negsuc 9 ∷ pos 1 ∷ []

answers-run : answers numbers ((1, 2) ∷ (3, 3) ∷ []) ≡ negsuc 5 ∷ pos 1 ∷ []
unfolding answers ◌+ℤ◌ ◌-ℤ◌
answers-run = refl
