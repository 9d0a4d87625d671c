-- ===== src/Luogu/Products/Prime.antt =====
-- The modulus is prime.
use my_practise.Base.{
  ℕ, zero, suc, ◌+◌, ◌*◌, ◌/◌, ◌%◌, ◌<◌, ◌≤◌, ◌≡◌, ◌≢◌, refl, sym, ap, ◌∙◌, Bool, true, not, ◌&&◌,
  ◌⊎◌, inl, inr, ◌==◌, arith,
}
use native.Mathlib.Nat.{div-add-mod', mul-mod_right, mul-le-mul}
use my_practise.Luogu.Powers.Inverses.{Undivided}
use my_practise.Luogu.Products.{modulus}

-- None of the n numbers from 2 on divides p.
no_divisor : ℕ → ℕ → Bool
no_divisor p zero = true
no_divisor p (suc n) = not (p % (n + 2) == 0) && no_divisor p n

no_divisor-ne : (p n i : ℕ) → no_divisor p n ≡ true → 1 < i → i < n + 2 → p % i ≢ 0
unfolding no_divisor
no_divisor-ne p zero i h k l e = absurd (omega arith)
no_divisor-ne p (suc n) i h k l e = ground (arith, no_divisor-ne p n i, ap (λ x. p % x))

le_or_lt : (x y : ℕ) → (x < y) ⊎ (y ≤ x)
le_or_lt x y = ground arith

quotient-lt : (q i p : ℕ) → q * i ≡ p → i < p → 1 < q
quotient-lt zero i p e h = omega arith
quotient-lt (suc zero) i p e h = omega arith
quotient-lt (suc (suc q)) i p e h = omega arith

-- A number below c squared that none below c divides has no divisor.
Undivided-below : (p n : ℕ) → no_divisor p n ≡ true → p < (n + 2) * (n + 2) → Undivided p
Undivided-below p n h small i k l e = elim (le_or_lt i (n + 2)) [
  | inl b ↦ no_divisor-ne p n i h k b e
  | inr b ↦
      let q = p / i in
      let whole : q * i ≡ p = (let d = div-add-mod' p i in omega arith) in
      elim (le_or_lt q (n + 2)) [
        | inl c ↦
            no_divisor-ne p n q h (quotient-lt q i p whole l) c
              (ap (λ x. x % q) (sym whole) ∙ mul-mod_right q i)
        | inr c ↦ let m : (n + 2) * (n + 2) ≤ q * i = mul-le-mul c b in omega arith
      ]
]

pub modulus-Undivided : Undivided modulus
unfolding no_divisor
modulus-Undivided = Undivided-below modulus 1069 refl (omega arith)
