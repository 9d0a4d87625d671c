-- ===== src/Luogu/Masks/Sets.antt =====
-- The lines printed are those of the sets that the lists hold.
use my_practise.Base.{
  ℕ, zero, suc, ◌+◌, ◌≤◌, ◌<◌, ◌≡◌, refl, sym, ap, ap₂, ◌∙◌, Bool, true, false, not, ◌&&◌, ◌||◌,
  List, [], ◌∷◌, ◌==◌, Bool-cases, ◌⊎◌, inl, inr, ltb, leb, arith,
}
use my_practise.Luogu.Masks.{
  Word, add_bit, read_set, cout_from, cout_ele, same_from, word_and, word_or, word_not, print_sets,
}

-- Whether the list holds the number.
abbrev pub holds : List ℕ → ℕ → Bool
holds [] i = false
holds (x ∷ xs) i = i == x || holds xs i

read_set-holds : (xs : List ℕ) (a : Word) (i : ℕ) → read_set xs a i ≡ (a i || holds xs i)
unfolding read_set
read_set-holds [] a i = ground arith
read_set-holds (x ∷ xs) a i = read_set-holds xs (add_bit x a) i ∙ ground arith

cout_from-holds :
    (rounds i : ℕ) (a : Word) (j : ℕ)
    → holds (cout_from rounds i a) j ≡ (leb i j && ltb j (i + rounds) && a j)
unfolding cout_from
cout_from-holds zero i a j = ground arith
cout_from-holds (suc rounds) i a j = elim (Bool-cases (j == i)) [
  | inl e ↦
      let p : j ≡ i = ground (arith, e) in
      ground (arith, cout_from-holds rounds (suc i) a j, ap a p)
  | inr e ↦ ground (arith, cout_from-holds rounds (suc i) a j, e)
]

same_from-equal :
    (rounds i : ℕ) (a b : Word) (j : ℕ)
    → same_from rounds i a b ≡ true
    → i ≤ j
    → j < i + rounds
    → a j ≡ b j
same_from-equal zero i a b j h k l = ground arith
same_from-equal (suc rounds) i a b j h k l = elim (Bool-cases (j == i)) [
  | inl e ↦ let p : j ≡ i = ground (arith, e) in ground (arith, ap a p, ap b p, h)
  | inr e ↦
      same_from-equal rounds (suc i) a b j (ground (arith, h)) (ground (arith, e)) (omega arith)
]

same_from-all : (rounds i : ℕ) (a b : Word) → ((j : ℕ) → a j ≡ b j) → same_from rounds i a b ≡ true
same_from-all zero i a b h = refl
same_from-all (suc rounds) i a b h = ground (arith, h i, same_from-all rounds (suc i) a b h)

cout_from-all : (rounds : ℕ) (a : Word) (j : ℕ) → j < rounds → holds (cout_from rounds 0 a) j ≡ a j
cout_from-all rounds a j h = cout_from-holds rounds 0 a j ∙ ground arith

cout_ele-holds : (a : Word) (j : ℕ) → j < 64 → holds (cout_ele a) j ≡ a j
unfolding cout_ele
cout_ele-holds a j h = cout_from-all 64 a j h

-- For the numbers j below 64: the printed intersection, union and complement hold j exactly if the lists
-- do so; the lists agree on j if they are called equal, and j is in the second if it is in the first
-- and the first is called a subset.
pub print_sets-holds :
    (xs ys : List ℕ) (j : ℕ)
    → j < 64
    → (holds (print_sets xs ys).both j ≡ (holds xs j && holds ys j))
      × (holds (print_sets xs ys).either j ≡ (holds xs j || holds ys j))
      × (holds (print_sets xs ys).complement j ≡ not (holds xs j))
      × (((print_sets xs ys).equal ≡ false) ⊎ (holds xs j ≡ holds ys j))
      × (((print_sets xs ys).subset ≡ false) ⊎ ((holds xs j && holds ys j) ≡ holds xs j))
      × ((print_sets xs ys).has_zero ≡ holds xs 0)
unfolding print_sets
print_sets-holds xs ys j h =
    let a = read_set xs (λ i. false) in
    let b = read_set ys (λ i. false) in
    let ea = read_set-holds xs (λ i. false) in
    let eb = read_set-holds ys (λ i. false) in
    (
      cout_ele-holds (word_and a b) j h ∙ ap₂ (λ x y. x && y) (ea j) (eb j),
      cout_ele-holds (word_or a b) j h ∙ ap₂ (λ x y. x || y) (ea j) (eb j),
      cout_ele-holds (word_not a) j h ∙ ap not (ea j),
      (elim (Bool-cases (same_from 64 0 a b)) [
        | inl e ↦ inr (sym (ea j) ∙ same_from-equal 64 0 a b j e (omega arith) (omega arith) ∙ eb j)
        | inr e ↦ inl e
      ]),
      (elim (Bool-cases (same_from 64 0 (word_and a b) a)) [
        | inl e ↦ inr (
            sym (ap₂ (λ x y. x && y) (ea j) (eb j))
            ∙ same_from-equal 64 0 (word_and a b) a j e (omega arith) (omega arith)
            ∙ ea j)
        | inr e ↦ inl e
      ]),
      ea 0,
    )
