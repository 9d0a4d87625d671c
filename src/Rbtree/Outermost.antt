-- ===== src/Rbtree/Outermost.antt =====
-- The walks end at the first and at the last node of the tree in order.
use my_practise.Base.{
  ℕ, zero, suc, ◌+◌, ◌≤◌, ◌≡◌, refl, ◌∙◌, List, [], ◌∷◌, ◌++◌, Option, none, some, arith,
}
use my_practise.Rbtree.{
  Store, left_most, right_most, reset_header, root, tree_left_most, tree_right_most,
}

pub data Tree : Type 0 where
  leaf : Tree
  node : ℕ → Tree → Tree → Tree

abbrev pub inorder : Tree → List ℕ
inorder leaf = []
inorder (node p l r) = inorder l ++ p ∷ inorder r

abbrev pub size : Tree → ℕ
size leaf = 0
size (node p l r) = suc (size l + size r)

-- The nodes below a pointer form the tree.
abbrev pub Shape : Store → Option ℕ → Tree → Type 0
Shape s q leaf = q ≡ none
Shape s q (node p l r) = (q ≡ some p) × Shape s (s p).left l × Shape s (s p).right r

abbrev pub first : List ℕ → Option ℕ
first [] = none
first (x ∷ xs) = some x

abbrev pub last : List ℕ → Option ℕ
last [] = none
last (x ∷ []) = some x
last (x ∷ y ∷ ys) = last (y ∷ ys)

first-append : (xs ys : List ℕ) (x : ℕ) → first xs ≡ some x → first (xs ++ ys) ≡ some x
first-append [] ys x h = ground (arith, h)
first-append (z ∷ xs) ys x h = h

last-append : (xs ys : List ℕ) (x : ℕ) → last ys ≡ some x → last (xs ++ ys) ≡ some x
last-append [] ys x h = h
last-append (z ∷ []) [] x h = ground (arith, h)
last-append (z ∷ []) (y ∷ ys) x h = h
last-append (z ∷ z' ∷ xs) ys x h = last-append (z' ∷ xs) ys x h

left_most-step :
    (fuel : ℕ) (s : Store) (p q : ℕ)
    → (s p).left ≡ some q
    → left_most (suc fuel) s p ≡ left_most fuel s q
unfolding left_most
left_most-step fuel s p q e = rw (e, left_most) refl

left_most-end :
    (fuel : ℕ) (s : Store) (p : ℕ) → (s p).left ≡ none → left_most (suc fuel) s p ≡ some p
unfolding left_most
left_most-end fuel s p e = rw (e, left_most) refl

right_most-step :
    (fuel : ℕ) (s : Store) (p q : ℕ)
    → (s p).right ≡ some q
    → right_most (suc fuel) s p ≡ right_most fuel s q
unfolding right_most
right_most-step fuel s p q e = rw (e, right_most) refl

right_most-end :
    (fuel : ℕ) (s : Store) (p : ℕ) → (s p).right ≡ none → right_most (suc fuel) s p ≡ some p
unfolding right_most
right_most-end fuel s p e = rw (e, right_most) refl

left_most-first :
    (s : Store) (p : ℕ) (l r : Tree) (fuel : ℕ)
    → Shape s (some p) (node p l r)
    → size (node p l r) ≤ fuel
    → (q : ℕ) × (left_most fuel s p ≡ some q) × (first (inorder (node p l r)) ≡ some q)
left_most-first s p l r zero h k = ground arith
left_most-first s p leaf r (suc fuel) (e, el, er) k = (p, left_most-end fuel s p el, refl)
left_most-first s p (node p' l l') r (suc fuel) (e, el, er) k =
    let (q, run, place) = left_most-first s p' l l' fuel (refl, el.1, el.2) (omega arith) in
    (
      q,
      left_most-step fuel s p p' el.0 ∙ run,
      first-append (inorder (node p' l l')) (p ∷ inorder r) q place,
    )

right_most-last :
    (s : Store) (p : ℕ) (l r : Tree) (fuel : ℕ)
    → Shape s (some p) (node p l r)
    → size (node p l r) ≤ fuel
    → (q : ℕ) × (right_most fuel s p ≡ some q) × (last (inorder (node p l r)) ≡ some q)
right_most-last s p l r zero h k = ground arith
right_most-last s p l leaf (suc fuel) (e, el, er) k =
    (p, right_most-end fuel s p er, last-append (inorder l) (p ∷ []) p refl)
right_most-last s p l (node p' r r') (suc fuel) (e, el, er) k =
    let (q, run, place) = right_most-last s p' r r' fuel (refl, er.1, er.2) (omega arith) in
    (
      q,
      right_most-step fuel s p p' er.0 ∙ run,
      last-append (inorder l) (p ∷ inorder (node p' r r')) q
          (last-append (p ∷ []) (inorder (node p' r r')) q place),
    )

-- In a store where the node p is the root of a tree, both walks from p return, with the tree's size
-- as fuel, the one with the first node of the tree in order and the other with the last.
pub outermost_lem :
    (s : Store) (p : ℕ) (l r : Tree)
    → Shape s (some p) (node p l r)
    → (a : ℕ) × (b : ℕ) × (left_most (size (node p l r)) s p ≡ some a)
      × (first (inorder (node p l r)) ≡ some a)
      × (right_most (size (node p l r)) s p ≡ some b)
      × (last (inorder (node p l r)) ≡ some b)
outermost_lem s p l r h =
    let (a, run, place) = left_most-first s p l r (size (node p l r)) h (omega arith) in
    let (b, run', place') = right_most-last s p l r (size (node p l r)) h (omega arith) in
    (a, b, run, place, run', place')

-- A header that was reset has no root, and its outermost nodes are itself.
pub reset_header_lem :
    (here : ℕ)
    → (root (reset_header here) ≡ none)
      × (tree_left_most (reset_header here) ≡ some here)
      × (tree_right_most (reset_header here) ≡ some here)
unfolding root reset_header tree_left_most tree_right_most
reset_header_lem here = (refl, refl, refl)
