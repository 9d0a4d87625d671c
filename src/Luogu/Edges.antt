-- ===== src/Luogu/Edges.antt =====
-- luogu/B3613.cpp: the targets of every vertex in ascending order, from the sorted edges. `sort` is a
-- parameter.
pub mod Lines
mod Tests
use my_practise.Base.{
  ℕ, zero, suc, ◌+◌, Bool, true, false, List, [], ◌∷◌, ◌++◌, ltb, ◌==◌, if◌then◌else◌,
}

pub record Edge : Type 0 where
  pub u : ℕ
  pub v : ℕ

-- The order of the sort.
abbrev pub before : Edge → Edge → Bool
before a b = if a.u == b.u then ltb a.v b.v else ltb a.u b.u

-- `while (k < m && e[k].u == i) cout << e[k++].v`: what is printed, and the edges from k on.
unfoldable pub print_targets : ℕ → List Edge → List ℕ × List Edge
print_targets i [] = ([], [])
print_targets i (e ∷ es) =
    let rest = print_targets i es in if e.u == i then (e.v ∷ rest.0, rest.1) else ([], e ∷ es)

-- The loop over the vertices i to i + rounds - 1: a line each.
unfoldable pub print_lines : ℕ → ℕ → List Edge → List (List ℕ)
unfolding print_targets
print_lines zero i es = []
print_lines (suc rounds) i es =
    (print_targets i es).0 ∷ print_lines rounds (suc i) (print_targets i es).1

-- One of the N graphs.
unfoldable pub print_graph : (List Edge → List Edge) → ℕ → List Edge → List (List ℕ)
unfolding print_lines
print_graph sort n es = print_lines n 1 (sort es)
