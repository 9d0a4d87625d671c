-- ===== src/Luogu/Powers/Mod.antt =====
-- Products and powers modulo a number.
use my_practise.Base.{
  ℕ, zero, suc, ◌+◌, ◌*◌, ◌/◌, ◌%◌, ◌^◌, ◌<◌, ◌≤◌, ◌≡◌, refl, sym, ap, ◌∙◌, arith,
}
use native.Mathlib.Nat.{
  div-add-mod, mul-add-mod_self_left, add-mul, mul_assoc, mul_comm, pow-suc, pow-zero, mul-suc,
  mul-le-mul,
}

pub mod-mul_left : (a b m : ℕ) → a % m * b % m ≡ a * b % m
mod-mul_left a b m = sym (
    ap (λ x. x * b % m) (sym (div-add-mod a m))
    ∙ ap (λ x. x % m) (add-mul (m * (a / m)) (a % m) b)
    ∙ ap (λ x. (x + a % m * b) % m) (mul_assoc m (a / m) b)
    ∙ mul-add-mod_self_left m (a / m * b) (a % m * b))

pub mod-mul_right : (a b m : ℕ) → a * (b % m) % m ≡ a * b % m
mod-mul_right a b m =
    ap (λ x. x % m) (mul_comm a (b % m)) ∙ mod-mul_left b a m ∙ ap (λ x. x % m) (mul_comm b a)

pub pow-mod : (x m k : ℕ) → (x % m) ^ k % m ≡ x ^ k % m
pow-mod x m zero = rw (pow-zero (x % m), pow-zero x) refl
pow-mod x m (suc k) =
    ap (λ y. y % m) (pow-suc (x % m) k)
    ∙ sym (mod-mul_left ((x % m) ^ k) (x % m) m)
    ∙ ap (λ y. y * (x % m) % m) (pow-mod x m k)
    ∙ mod-mul_left (x ^ k) (x % m) m
    ∙ mod-mul_right (x ^ k) x m
    ∙ ap (λ y. y % m) (sym (pow-suc x k))

pub pow-double : (x k : ℕ) → (x * x) ^ k ≡ x ^ (k + k)
pow-double x zero = rw (pow-zero (x * x), pow-zero x) refl
pow-double x (suc k) =
    pow-suc (x * x) k
    ∙ ap (λ y. y * (x * x)) (pow-double x k)
    ∙ sym (mul_assoc (x ^ (k + k)) x x)
    ∙ ap (λ y. y * x) (sym (pow-suc x (k + k)))
    ∙ sym (pow-suc x (suc (k + k)))
    ∙ ap (λ y. x ^ y) (omega arith)

-- Products of numbers below 2^31 are far from the limit.
pub product-small : (x y : ℕ) → x < 2 ^ 31 → y < 2 ^ 31 → x * y < 2 ^ 63
product-small x y h k =
    let b : x * y ≤ 2 ^ 31 * 2 ^ 31 =
      mul-le-mul {n₂ = 2 ^ 31} {m₂ = 2 ^ 31} (omega arith) (omega arith) in
    omega arith

-- With p = d + q = q i + r, the product d i leaves r modulo p.
pub inverse-step : (d q r i : ℕ) → d + q ≡ q * suc i + r → d * suc i ≡ (d + q) * i + r
inverse-step d q r i e = let a = add-mul d q (suc i) in let b = mul-suc (d + q) i in omega arith
