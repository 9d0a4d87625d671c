-- ===== src/Luogu/Edges/Tests.antt =====
-- A graph whose edges are given in order, with a sort that has nothing to do.
use my_practise.Base.{ℕ, ◌≡◌, refl, List, [], ◌∷◌, some, get_elem?, arith}
use my_practise.Luogu.Edges.{Edge, print_graph}
use my_practise.Luogu.Edges.Lines.{copies, Rising, occurrences, print_graph-copies}

abbrev edges : List Edge
edges = record { u = 1; v = 2 } ∷ record { u = 1; v = 3 } ∷ record { u = 3; v = 1 } ∷ []

abbrev leave : List Edge → List Edge
leave es = es

print_graph-run : print_graph leave 3 edges ≡ (2 ∷ 3 ∷ []) ∷ [] ∷ (1 ∷ []) ∷ []
unfolding print_graph
print_graph-run = refl

print_graph-copies_example :
    (line : List ℕ) × (get_elem? (print_graph leave 3 edges) 0 ≡ some line)
    × Rising 0 line
    × (occurrences 2 line ≡ copies 1 2 edges)
print_graph-copies_example =
    print_graph-copies leave 3 0 2 edges (refl, (refl, tt)) (λ u v. refl) (λ v. refl) (omega arith)
