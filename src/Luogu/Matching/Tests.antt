-- ===== src/Luogu/Matching/Tests.antt =====
-- The theorem on matching at a concrete graph.
use my_practise.Base.{
  ℕ, ◌+◌, ◌≤◌, ◌≡◌, ◌⊎◌, refl, suc, true, [], ◌∷◌, some, ◌==◌, if◌then◌else◌, arith,
}
use mathlib.Core.Option
use my_practise.Luogu.Matching.{State, Graph, main}
use my_practise.Luogu.Matching.Counts.{count, elem, InRange}
use my_practise.Luogu.Matching.Result.{main_matching}

-- 1 - 1, 1 - 2, 2 - 1: the second left vertex takes the partner of the first.
abbrev crossing : Graph
crossing u = if u == 1 then 1 ∷ 2 ∷ [] else if u == 2 then 1 ∷ [] else []

crossing-InRange : (u : ℕ) → InRange 2 (crossing u)
crossing-InRange u = ground arith

main_matching_example :
    (ret : ℕ) × (t : State) × (main crossing 2 2 ≡ some (ret, t))
    × ((x : ℕ) → count (suc x) t.con 2 ≤ 1)
    × (ret + count 0 t.con 2 ≡ 2)
    × ((w : ℕ) → (t.con w ≡ 0) ⊎ (elem w (crossing (t.con w)) ≡ true))
main_matching_example = main_matching crossing 2 2 crossing-InRange

main-crossing : Option.map (λ r. r.0) (main crossing 2 2) ≡ some 2
unfolding main Option.bind
main-crossing = refl
