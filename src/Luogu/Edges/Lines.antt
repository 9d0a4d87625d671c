-- ===== src/Luogu/Edges/Lines.antt =====
-- Every line has exactly the targets of its vertex, in ascending order.
use my_practise.Base.{
  ℕ, zero, suc, ◌+◌, ◌<◌, ◌≤◌, ◌≡◌, refl, sym, ap, ◌∙◌, subst, false, List, [], ◌∷◌, ◌==◌, ◌&&◌,
  if◌then◌else◌, Bool-cases, inl, inr, some, get_elem?, arith,
}
use my_practise.Luogu.Edges.{Edge, before, print_targets, print_lines, print_graph}

-- The targets of the vertex i, in the order of the list.
abbrev pub targets : ℕ → List Edge → List ℕ
targets i [] = []
targets i (e ∷ es) = if e.u == i then e.v ∷ targets i es else targets i es

-- The sources do not fall, and none is below i.
abbrev pub Ascending : ℕ → List Edge → Type 0
Ascending i [] = Unit
Ascending i (e ∷ es) = (i ≤ e.u) × Ascending e.u es

Ascending-le : (i j : ℕ) (es : List Edge) → i ≤ j → Ascending j es → Ascending i es
Ascending-le i j [] h a = tt
Ascending-le i j (e ∷ es) h (l, a) = (omega arith, a)

targets-below : (i j : ℕ) (es : List Edge) → i < j → Ascending j es → targets i es ≡ []
targets-below i j [] h a = refl
targets-below i j (e ∷ es) h (l, a) = ground (arith, targets-below i e.u es (omega arith) a)

print_targets-targets :
    (i : ℕ) (es : List Edge) → Ascending i es → (print_targets i es).0 ≡ targets i es
unfolding print_targets
print_targets-targets i [] a = refl
print_targets-targets i (e ∷ es) (l, a) = elim (Bool-cases (e.u == i)) [
  | inl q ↦
      let p : e.u ≡ i = ground (arith, q) in
      rw q (ap (λ vs. e.v ∷ vs) (print_targets-targets i es (subst (λ x. Ascending x es) p a)))
  | inr q ↦ rw q (sym (targets-below i e.u es (ground (arith, q)) a))
]

-- What is left belongs to later vertices, and has all their edges.
print_targets-rest :
    (i : ℕ) (es : List Edge) → Ascending i es → Ascending (suc i) (print_targets i es).1
unfolding print_targets
print_targets-rest i [] a = tt
print_targets-rest i (e ∷ es) (l, a) = elim (Bool-cases (e.u == i)) [
  | inl q ↦
      let p : e.u ≡ i = ground (arith, q) in
      rw q (print_targets-rest i es (subst (λ x. Ascending x es) p a))
  | inr q ↦ rw q (ground (arith, q), a)
]

print_targets-later :
    (i j : ℕ) (es : List Edge) → i < j → targets j (print_targets i es).1 ≡ targets j es
unfolding print_targets
print_targets-later i j [] h = refl
print_targets-later i j (e ∷ es) h = elim (Bool-cases (e.u == i)) [
  | inl q ↦ let p : e.u == j ≡ false = ground (arith, q) in rw (q, p) (print_targets-later i j es h)
  | inr q ↦ rw q refl
]

print_lines-targets :
    (rounds i j : ℕ) (es : List Edge)
    → Ascending i es
    → j < rounds
    → get_elem? (print_lines rounds i es) j ≡ some (targets (i + j) es)
unfolding print_lines
print_lines-targets zero i j es a h = ground arith
print_lines-targets (suc rounds) i zero es a h =
    ap some (print_targets-targets i es a ∙ ap (λ x. targets x es) (omega arith))
print_lines-targets (suc rounds) i (suc j) es a h =
    print_lines-targets rounds (suc i) j (print_targets i es).1 (print_targets-rest i es a)
      (omega arith)
    ∙ ap some
        (print_targets-later i (suc i + j) es (omega arith) ∙ ap (λ x. targets x es) (omega arith))

-- No edge of the list is before the one in front of it, the first not before a.
abbrev pub Ordered : Edge → List Edge → Type 0
Ordered a [] = Unit
Ordered a (e ∷ es) = (before e a ≡ false) × Ordered e es

abbrev pub Sorted : List Edge → Type 0
Sorted [] = Unit
Sorted (e ∷ es) = Ordered e es

-- How often an edge is in the list, and a target in a line.
abbrev pub copies : ℕ → ℕ → List Edge → ℕ
copies u v [] = 0
copies u v (e ∷ es) = (if e.u == u && e.v == v then 1 else 0) + copies u v es

abbrev pub occurrences : ℕ → List ℕ → ℕ
occurrences v [] = 0
occurrences v (w ∷ ws) = (if w == v then 1 else 0) + occurrences v ws

-- The numbers do not fall, and none is below lo.
abbrev pub Rising : ℕ → List ℕ → Type 0
Rising lo [] = Unit
Rising lo (v ∷ vs) = (lo ≤ v) × Rising v vs

Ordered-Ascending : (a : Edge) (es : List Edge) → Ordered a es → Ascending a.u es
Ordered-Ascending a [] o = tt
Ordered-Ascending a (e ∷ es) (b, o) = (ground (arith, b), Ordered-Ascending e es o)

occurrences-targets : (i v : ℕ) (es : List Edge) → occurrences v (targets i es) ≡ copies i v es
occurrences-targets i v [] = refl
occurrences-targets i v (e ∷ es) = ground (arith, occurrences-targets i v es)

targets-Rising :
    (i : ℕ) (a : Edge) (es : List Edge)
    → Ordered a es
    → Rising (if a.u == i then a.v else 0) (targets i es)
targets-Rising i a [] o = tt
targets-Rising i a (e ∷ es) (b, o) = elim (Bool-cases (e.u == i)) [
  | inl q ↦
      let rest = targets-Rising i e es o in
      rw q (ground (arith, b, q), subst (λ x. Rising (if x then e.v else 0) (targets i es)) q rest)
  | inr q ↦ elim (Bool-cases (a.u == i)) [
    | inl p ↦
        let none_left =
          targets-below i e.u es (ground (arith, b, p, q)) (Ordered-Ascending e es o) in
        rw q (subst (Rising (if a.u == i then a.v else 0)) (sym none_left) tt)
    | inr p ↦
        rw (q, p)
          (subst (λ x. Rising (if x then e.v else 0) (targets i es)) q (targets-Rising i e es o))
  ]
]

Sorted-Rising : (i : ℕ) (es : List Edge) → Sorted es → Rising 0 (targets i es)
Sorted-Rising i [] o = tt
Sorted-Rising i (e ∷ es) o = elim (Bool-cases (e.u == i)) [
  | inl q ↦ rw q (
    omega arith,
    subst (λ x. Rising (if x then e.v else 0) (targets i es)) q (targets-Rising i e es o),
  )
  | inr q ↦
      rw q (subst (λ x. Rising (if x then e.v else 0) (targets i es)) q (targets-Rising i e es o))
]

Sorted-Ascending : (es : List Edge) → Sorted es → ((v : ℕ) → copies 0 v es ≡ 0) → Ascending 1 es
Sorted-Ascending [] o h = tt
Sorted-Ascending (e ∷ es) o h = (ground (arith, h e.v), Ordered-Ascending e es o)

-- For a sort that returns its edges in order, each as often as it was given, a graph with no edge
-- from a vertex 0, and i < n, the line of the vertex i + 1 is printed, does not fall, and has every target v as
-- often as the graph has the edge from i + 1 to v.
pub print_graph-copies :
    (sort : List Edge → List Edge) (n i v : ℕ) (es : List Edge)
    → Sorted (sort es)
    → ((u v : ℕ) → copies u v (sort es) ≡ copies u v es)
    → ((v : ℕ) → copies 0 v es ≡ 0)
    → i < n
    → (line : List ℕ) × (get_elem? (print_graph sort n es) i ≡ some line)
      × Rising 0 line
      × (occurrences v line ≡ copies (suc i) v es)
unfolding print_graph
print_graph-copies sort n i v es o same least h = (
  targets (suc i) (sort es),
  print_lines-targets n 1 i (sort es) (Sorted-Ascending (sort es) o (λ v. same 0 v ∙ least v)) h
      ∙ ap (λ x. some (targets x (sort es))) (omega arith),
  Sorted-Rising (suc i) (sort es) o,
  occurrences-targets (suc i) v (sort es) ∙ same (suc i) v,
)
