-- ===== src/Luogu/Products/Units.antt =====
-- Numbers with an inverse modulo a prime, and their products.
use my_practise.Base.{
  ℕ, zero, suc, ◌+◌, ◌-◌, ◌*◌, ◌%◌, ◌^◌, ◌≤◌, ◌<◌, ◌≡◌, ◌≢◌, refl, sym, ap, ◌∙◌, subst, some, List,
  [], ◌∷◌, take, drop, update, arith,
}
use native.Mathlib.Nat.{mod-lt, mod-eq_of_lt, mul_assoc, mul_comm, one-mul}
use my_practise.Luogu.Powers.{linear, linear_loop}
use my_practise.Luogu.Powers.Mod.{mod-mul_left}
use my_practise.Luogu.Powers.Inverses.{Inverse, Undivided, linear-Inverse}
use my_practise.Luogu.Products.{load_inverses}

abbrev pub product : List ℕ → ℕ
product [] = 1
product (x ∷ xs) = x * product xs

abbrev pub UnitOf : ℕ → ℕ → Type 0
UnitOf p a = (y : ℕ) × (a * y % p ≡ 1)

-- Numbers that fit the type `int` and that the modulus does not divide.
abbrev pub Fine : ℕ → List ℕ → Type 0
Fine p [] = Unit
Fine p (x ∷ xs) = (x < 2 ^ 31) × (x % p ≢ 0) × Fine p xs

pub swap_middle : (a b c d : ℕ) → a * b * (c * d) ≡ a * c * (b * d)
swap_middle a b c d =
    mul_assoc a b (c * d)
    ∙ ap (λ x. a * x) (sym (mul_assoc b c d) ∙ ap (λ x. x * d) (mul_comm b c) ∙ mul_assoc c b d)
    ∙ sym (mul_assoc a c (b * d))

UnitOf-mul : (p a b : ℕ) → 1 < p → UnitOf p a → UnitOf p b → UnitOf p (a * b)
UnitOf-mul p a b h (y, e) (z, f) = (
  y * z,
  ap (λ x. x % p) (swap_middle a b y z)
      ∙ sym (mod-mul_left (a * y) (b * z) p)
      ∙ ap (λ x. x * (b * z) % p) e
      ∙ ap (λ x. x % p) (one-mul (b * z))
      ∙ f,
)

UnitOf-ne : (p a : ℕ) → 1 < p → UnitOf p a → a % p ≢ 0
UnitOf-ne p a h (y, e) z =
    let k : 0 * y % p ≡ 1 = ap (λ x. x * y % p) (sym z) ∙ mod-mul_left a y p ∙ e in
    let m : 0 % p ≡ 0 = mod-eq_of_lt {n = 0} {m = p} (omega arith) in
    let n : 0 * y ≡ 0 = omega arith in absurd (let w = ap (λ x. x % p) n in omega arith)

module _ (p : ℕ) (h : 1 < p) (k : p < 2 ^ 31) (u : Undivided p) where
  -- The table has the inverses.
  pub load_inverses-Inverse :
      (i : ℕ) → 1 ≤ i → i < p → (inv : ℕ → ℕ) × (load_inverses p ≡ some inv) × Inverse p i (inv i)
  unfolding load_inverses linear
  load_inverses-Inverse i a b =
      let (inv, run, r) = linear-Inverse (p - 1) p i h k (omega arith) u a (omega arith) in
      let e : p - 1 - 1 ≡ p - 2 = omega arith in
      (inv, subst (λ n. linear_loop n 2 p (update (λ j. 0) 1 1) ≡ some inv) e run, r)

  UnitOf-number : (x : ℕ) → x % p ≢ 0 → UnitOf p x
  UnitOf-number x n =
      let l = mod-lt x {m = p} (omega arith) in
      let (inv, run, r) = load_inverses-Inverse (x % p) (omega arith) l in
      (
        inv (x % p),
        sym (mod-mul_left x (inv (x % p)) p)
            ∙ ap (λ y. y % p) (mul_comm (x % p) (inv (x % p)))
            ∙ r.1,
      )

  UnitOf-product : (n : ℕ) (xs : List ℕ) → Fine p xs → UnitOf p (product (take n xs))
  UnitOf-product zero xs f = (1, mod-eq_of_lt {n = 1} {m = p} h)
  UnitOf-product (suc n) [] f = (1, mod-eq_of_lt {n = 1} {m = p} h)
  UnitOf-product (suc n) (x ∷ xs) (l, m, f) =
      UnitOf-mul p x (product (take n xs)) h (UnitOf-number x m) (UnitOf-product n xs f)

  -- No product of the numbers is divided.
  pub product-ne : (n : ℕ) (xs : List ℕ) → Fine p xs → product (take n xs) % p ≢ 0
  product-ne n xs f = UnitOf-ne p (product (take n xs)) h (UnitOf-product n xs f)

product-nil : (n : ℕ) → product (take n []) ≡ 1
product-nil zero = refl
product-nil (suc n) = refl

pub product-take :
    (l k : ℕ) (xs : List ℕ)
    → product (take (l + k) xs) ≡ product (take l xs) * product (take k (drop l xs))
product-take zero k xs =
    ap (λ n. product (take n xs)) (omega arith) ∙ sym (one-mul (product (take k xs)))
product-take (suc l) k [] =
    product-nil (suc l + k) ∙ sym (one-mul (product (take k [])) ∙ product-nil k)
product-take (suc l) k (x ∷ xs) =
    let e : suc l + k ≡ suc (l + k) = omega arith in
    ap (λ n. product (take n (x ∷ xs))) e
    ∙ ap (λ y. x * y) (product-take l k xs)
    ∙ sym (mul_assoc x (product (take l xs)) (product (take k (drop l xs))))
