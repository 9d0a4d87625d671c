-- ===== src/Luogu/Powers/Inverses.antt =====
-- The numbers that `linear` computes are inverses.
use my_practise.Base.{
  ℕ, zero, suc, ◌+◌, ◌-◌, ◌*◌, ◌/◌, ◌%◌, ◌^◌, ◌<◌, ◌≤◌, ◌≡◌, ◌≢◌, refl, sym, ap, ◌∙◌, subst, some,
  ◌==◌, Bool-cases, inl, inr, update, arith,
}
use my_practise.Luogu.Powers.{mul_long, linear_loop, linear}
use my_practise.Luogu.Powers.Mod.{mod-mul_left, inverse-step}
use my_practise.Luogu.Powers.Power.{mul_long-small}
use mathlib.Core.Option
use native.Mathlib.Nat.{
  mod-lt, div-add-mod', mul_assoc, mul_comm, mul-add-mod_self_left, add-mul, mod-eq_of_lt,
  div-le_self,
}

-- The entry is an inverse modulo p, and below p.
abbrev pub Inverse : ℕ → ℕ → ℕ → Type 0
Inverse p i x = (x < p) × (x * i % p ≡ 1)

-- (p - p / i) i leaves p % i.
left-over : (p i : ℕ) → (p - p / suc i) * suc i ≡ p * i + p % suc i
left-over p i =
    let le = div-le_self p (suc i) in
    let d = div-add-mod' p (suc i) in
    let split : p - p / suc i + p / suc i ≡ p = omega arith in
    inverse-step (p - p / suc i) (p / suc i) (p % suc i) i (split ∙ sym d)
    ∙ ap (λ y. y * i + p % suc i) split

-- (p - p / i) x is an inverse of i, if x is one of p % i.
step-Inverse :
    (p i x : ℕ) → i < p → Inverse p (p % suc i) x → Inverse p (suc i) ((p - p / suc i) * x % p)
step-Inverse p i x h (l, e) =
    let c = p - p / suc i in
    let r = p % suc i in
    (
      mod-lt (c * x) (omega arith),
      mod-mul_left (c * x) (suc i) p
          ∙ ap (λ y. y % p)
              (mul_assoc c x (suc i)
                ∙ ap (λ y. c * y) (mul_comm x (suc i))
                ∙ sym (mul_assoc c (suc i) x)
                ∙ ap (λ y. y * x) (left-over p i)
                ∙ add-mul (p * i) r x
                ∙ ap (λ y. y + r * x) (mul_assoc p i x))
          ∙ mul-add-mod_self_left p (i * x) (r * x)
          ∙ ap (λ y. y % p) (mul_comm r x)
          ∙ e,
    )

-- No number between 1 and p divides p.
abbrev pub Undivided : ℕ → Type 0
Undivided p = (i : ℕ) → 1 < i → i < p → p % i ≢ 0

-- The entries from 1 to c - 1 are inverses.
abbrev Filled : ℕ → ℕ → (ℕ → ℕ) → Type 0
Filled p c inv = (j : ℕ) → 1 ≤ j → j < c → Inverse p j (inv j)

update-Filled :
    (p i x : ℕ) (inv : ℕ → ℕ) → Filled p i inv → Inverse p i x → Filled p (suc i) (update inv i x)
update-Filled p i x inv f g j h k = elim (Bool-cases (j == i)) [
  | inl e ↦
      let q : j ≡ i = ground (arith, e) in
      let q' : update inv i x j ≡ x = ground (arith, e) in
      subst (Inverse p j) (sym q') (subst (λ k. Inverse p k x) (sym q) g)
  | inr e ↦
      let q : update inv i x j ≡ inv j = ground (arith, e) in
      subst (Inverse p j) (sym q) (f j h (ground (arith, e)))
]

linear_loop-end : (i p : ℕ) (inv : ℕ → ℕ) → linear_loop 0 i p inv ≡ some inv
unfolding linear_loop
linear_loop-end i p inv = refl

linear_loop-round :
    (rounds i p : ℕ) (inv : ℕ → ℕ)
    → mul_long (p - p / i) (inv (p % i)) ≡ some ((p - p / i) * inv (p % i))
    → linear_loop (suc rounds) i p inv
      ≡ linear_loop rounds (suc i) p (update inv i ((p - p / i) * inv (p % i) % p))
unfolding linear_loop Option.bind
linear_loop-round rounds i p inv e = rw (linear_loop, e) refl

first-Filled : (p : ℕ) → 1 < p → Filled p 2 (update (λ i. 0) 1 1)
first-Filled p h j a b =
    let q : 1 ≡ j = omega arith in
    subst (λ j. Inverse p j (update (λ i. 0) 1 1 j)) q (h, mod-eq_of_lt h)

linear_loop-Filled :
    (rounds i p : ℕ) (inv : ℕ → ℕ)
    → 2 ≤ i
    → i + rounds ≤ p
    → p < 2 ^ 31
    → Undivided p
    → Filled p i inv
    → (inv' : ℕ → ℕ) × (linear_loop rounds i p inv ≡ some inv') × Filled p (i + rounds) inv'
linear_loop-Filled zero i p inv h k l u f =
    (inv, linear_loop-end i p inv, λ j a b. f j a (omega arith))
linear_loop-Filled (suc rounds) zero p inv h k l u f = ground arith
linear_loop-Filled (suc rounds) (suc i) p inv h k l u f =
    let r = p % suc i in
    let below : r < suc i = mod-lt p (omega arith) in
    let not_zero = u (suc i) (omega arith) (omega arith) in
    let old = f r (omega arith) below in
    let x = (p - p / suc i) * inv r in
    let (inv', run, filled) =
      linear_loop-Filled rounds (suc (suc i)) p (update inv (suc i) (x % p)) (omega arith)
        (omega arith) l u
        (update-Filled p (suc i) (x % p) inv f (step-Inverse p i (inv r) (omega arith) old)) in
    (
      inv',
      linear_loop-round rounds (suc i) p inv
            (mul_long-small (p - p / suc i) (inv r) (omega arith) (ground (arith, old.0)))
          ∙ run,
      λ j a b. filled j a (omega arith),
    )

-- For p above 1 and below 2^31 that no number between 1 and p divides, and n below p, the
-- program's products do not overflow, and each of the entries 1 to n is below p and an inverse of
-- its index modulo p.
pub linear-Inverse :
    (n p i : ℕ)
    → 1 < p
    → p < 2 ^ 31
    → n < p
    → Undivided p
    → 1 ≤ i
    → i ≤ n
    → (inv : ℕ → ℕ) × (linear n p ≡ some inv) × Inverse p i (inv i)
unfolding linear
linear-Inverse n p i h k l u a b =
    let (inv, run, filled) =
      linear_loop-Filled (n - 1) 2 p (update (λ i. 0) 1 1) (omega arith) (omega arith) k u
        (first-Filled p h) in
    (inv, run, filled i a (omega arith))
