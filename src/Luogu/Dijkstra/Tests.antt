-- ===== src/Luogu/Dijkstra/Tests.antt =====
-- Four vertices, of which one is out of reach.
use my_practise.Base.{ℕ, ◌≡◌, refl, none, some, List, [], ◌∷◌, Option, arith}
use my_practise.Luogu.Dijkstra.{Edge, print_from, print_distances}
use my_practise.Luogu.Dijkstra.Shortest.{IsShortest, print_distances-IsShortest}

abbrev edges : List Edge
edges =
    record { from_vertex = 1; to_vertex = 2; weight = 7 }
    ∷ record { from_vertex = 1; to_vertex = 3; weight = 2 }
    ∷ record { from_vertex = 3; to_vertex = 2; weight = 4 }
    ∷ record { from_vertex = 4; to_vertex = 1; weight = 1 }
    ∷ []

print_distances-run : print_distances 4 edges ≡ some (some 0 ∷ some 6 ∷ some 2 ∷ none ∷ [])
unfolding print_distances
print_distances-run = refl

print_distances-IsShortest_example :
    (ret : ℕ → Option ℕ) × (print_distances 4 edges ≡ some (print_from 4 1 ret))
    × ((v : ℕ) → IsShortest edges v (ret v))
print_distances-IsShortest_example =
    print_distances-IsShortest 4 edges
      (omega arith, (omega arith, (omega arith, (omega arith, tt))))
