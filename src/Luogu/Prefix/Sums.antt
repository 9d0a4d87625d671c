-- ===== src/Luogu/Prefix/Sums.antt =====
-- An answer is the sum of the numbers in the range.
use my_practise.Base.{
  ℕ, zero, suc, ◌+◌, ◌≤◌, ◌<◌, ◌≡◌, refl, sym, ap, ap₂, eq→==, ◌∙◌, List, [], ◌∷◌, map, length,
  take, drop, ℤ, pos, ◌+ℤ◌, ◌-ℤ◌, +ℤ_assoc, +ℤ_cancel_left, zero-+ℤ, +ℤ-zero, ◌==◌, if◌then◌else◌,
  arith,
}
use my_practise.Luogu.Prefix.{load_prefix, range_sum, answers}

abbrev pub sum : List ℤ → ℤ
sum [] = pos 0
sum (x ∷ xs) = x +ℤ sum xs

load_prefix-keeps :
    (b : ℕ) (xs : List ℤ) (pre : ℕ → ℤ) (j : ℕ) → j ≤ b → load_prefix b xs pre j ≡ pre j
unfolding load_prefix
load_prefix-keeps b [] pre j h = refl
load_prefix-keeps b (x ∷ xs) pre j h =
    load_prefix-keeps (suc b) xs (λ j. if j == suc b then pre (suc b) +ℤ (pre b +ℤ x) else pre j) j
      (omega arith)
    ∙ ground arith

-- The entry k places on has grown by the first k numbers, if the entries were 0.
load_prefix-sum :
    (b : ℕ) (xs : List ℤ) (pre : ℕ → ℤ) (k : ℕ)
    → ((j : ℕ) → b < j → pre j ≡ pos 0)
    → k ≤ length xs
    → load_prefix b xs pre (b + k) ≡ pre b +ℤ sum (take k xs)
unfolding load_prefix
load_prefix-sum b xs pre zero z h =
    load_prefix-keeps b xs pre (b + 0) (omega arith) ∙ ap pre (omega arith) ∙ sym (+ℤ-zero (pre b))
load_prefix-sum b [] pre (suc k) z h = ground arith
load_prefix-sum b (x ∷ xs) pre (suc k) z h =
    let pre' : ℕ → ℤ = λ j. if j == suc b then pre (suc b) +ℤ (pre b +ℤ x) else pre j in
    let e : pre' (suc b) ≡ pre b +ℤ x =
      rw (eq→== (suc b) (suc b) refl)
        (ap (λ y. y +ℤ (pre b +ℤ x)) (z (suc b) (omega arith)) ∙ zero-+ℤ (pre b +ℤ x)) in
    ap (load_prefix (suc b) xs pre') (omega arith)
    ∙ load_prefix-sum (suc b) xs pre' k (λ j l. ground (arith, z j (omega arith))) (omega arith)
    ∙ ap (λ y. y +ℤ sum (take k xs)) e
    ∙ +ℤ_assoc (pre b) x (sum (take k xs))

abbrev nothing : List ℤ
nothing = []

take-nil : (n : ℕ) → take n nothing ≡ nothing
take-nil zero = refl
take-nil (suc n) = refl

sum-take :
    (l k : ℕ) (xs : List ℤ) → sum (take (l + k) xs) ≡ sum (take l xs) +ℤ sum (take k (drop l xs))
sum-take zero k xs = ap (λ n. sum (take n xs)) (omega arith) ∙ sym (zero-+ℤ (sum (take k xs)))
sum-take (suc l) k [] =
    ap sum (take-nil (suc l + k))
    ∙ sym (zero-+ℤ (pos 0))
    ∙ ap (λ xs. pos 0 +ℤ sum xs) (sym (take-nil k))
sum-take (suc l) k (x ∷ xs) =
    let e : suc l + k ≡ suc (l + k) = omega arith in
    ap (λ n. sum (take n (x ∷ xs))) e
    ∙ ap (λ y. x +ℤ y) (sum-take l k xs)
    ∙ sym (+ℤ_assoc x (sum (take l xs)) (sum (take k (drop l xs))))

range_sum-sum :
    (xs : List ℤ) (l k : ℕ)
    → l + k ≤ length xs
    → range_sum (load_prefix 0 xs (λ j. pos 0)) (suc l, l + k) ≡ sum (take k (drop l xs))
unfolding range_sum
range_sum-sum xs l k h =
    let at = λ (n : ℕ) (g : n ≤ length xs).
      load_prefix-sum 0 xs (λ j. pos 0) n (λ j l. refl) g ∙ zero-+ℤ (sum (take n xs)) in
    let pre = load_prefix 0 xs (λ j. pos 0) in
    ap₂ (λ x y. pre x -ℤ pre y) (omega arith) (omega arith)
    ∙ ap₂ (λ x y. x -ℤ y) (at (l + k) h ∙ sum-take l k xs) (at l (omega arith))
    ∙ +ℤ_cancel_left (sum (take l xs)) (sum (take k (drop l xs)))

-- Every range (l, k), of the k numbers behind the first l, ends within n.
abbrev pub Within : ℕ → List (ℕ × ℕ) → Type 0
Within n [] = Unit
Within n ((l, k) ∷ ranges) = (l + k ≤ n) × Within n ranges

-- A range as the query of its first and of its last number, which count from 1.
abbrev pub query : ℕ × ℕ → ℕ × ℕ
query (l, k) = (suc l, l + k)

abbrev pub part_sum : List ℤ → ℕ × ℕ → ℤ
part_sum xs (l, k) = sum (take k (drop l xs))

-- For queries within the numbers, which may be empty but start at 1 at least, every line is
-- the sum of the numbers that its query names.
pub answers-sum :
    (xs : List ℤ) (ranges : List (ℕ × ℕ))
    → Within (length xs) ranges
    → answers xs (map query ranges) ≡ map (part_sum xs) ranges
unfolding answers
answers-sum xs [] w = refl
answers-sum xs ((l, k) ∷ ranges) (h, w) =
    ap₂ (λ y ys. y ∷ ys) (range_sum-sum xs l k h) (answers-sum xs ranges w)
