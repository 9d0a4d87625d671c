-- ===== src/Luogu/Closure/Tests.antt =====
-- A run of the closure on the graph 0 → 1 → 2.
use my_practise.Base.{◌≡◌, ◌↔◌, refl, true, false, ◌&&◌, ◌||◌, ◌==◌}
use my_practise.Luogu.Closure.{Matrix, closure}
use my_practise.Luogu.Closure.Walks.{Walk, closure-Walk}
use native.Mathlib.Omega.{arith}

abbrev path : Matrix
path i j = (i == 0 && j == 1) || (i == 1 && j == 2)

closure-path : closure 3 path 0 2 ≡ true
unfolding closure
closure-path = refl

closure-back : closure 3 path 2 0 ≡ false
unfolding closure
closure-back = refl

closure-Walk_example : (closure 3 path 0 2 ≡ true) ↔ Walk 3 path 0 2
closure-Walk_example = closure-Walk 3 path 0 2 (omega arith)
