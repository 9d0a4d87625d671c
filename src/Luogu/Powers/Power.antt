-- ===== src/Luogu/Powers/Power.antt =====
-- The fast power returns the power modulo the number.
use my_practise.Base.{
  ℕ, zero, suc, ◌+◌, ◌*◌, ◌/◌, ◌%◌, ◌^◌, ◌<◌, ◌≤◌, ◌≡◌, refl, sym, ap, ◌∙◌, some, ◌==◌, Bool-cases,
  inl, inr, true, false, arith,
}
use my_practise.Luogu.Powers.{mul_long, multiply_odd, power_loop, fastpower}
use my_practise.Luogu.Powers.Mod.{mod-mul_left, mod-mul_right, pow-mod, pow-double, product-small}
use mathlib.Core.Option
use native.Mathlib.Nat.{
  mul-one, one-mul, pow-zero, pow-suc, mod-eq_of_lt, mod-lt, mul_assoc, mul_comm,
}

pub mul_long-small : (x y : ℕ) → x < 2 ^ 31 → y < 2 ^ 31 → mul_long x y ≡ some (x * y)
unfolding mul_long
mul_long-small x y h k = ground (arith, product-small x y h k)

-- The factor of the bit, with the square's power.
square-power : (x a k m : ℕ) → x * (a * a % m) ^ k % m ≡ x * a ^ (k + k) % m
square-power x a k m =
    sym (mod-mul_right x ((a * a % m) ^ k) m)
    ∙ ap (λ y. x * y % m) (pow-mod (a * a) m k)
    ∙ mod-mul_right x ((a * a) ^ k) m
    ∙ ap (λ y. x * y % m) (pow-double a k)

odd-power : (ret a k m : ℕ) → ret * a % m * (a * a % m) ^ k % m ≡ ret * a ^ suc (k + k) % m
odd-power ret a k m =
    square-power (ret * a % m) a k m
    ∙ mod-mul_left (ret * a) (a ^ (k + k)) m
    ∙ ap (λ y. y % m)
        (mul_assoc ret a (a ^ (k + k))
          ∙ ap (λ y. ret * y) (mul_comm a (a ^ (k + k)) ∙ sym (pow-suc a (k + k))))

multiply_odd-odd :
    (a p ret m : ℕ)
    → a < 2 ^ 31
    → ret < 2 ^ 31
    → p % 2 == 1 ≡ true
    → multiply_odd a p ret m ≡ some (ret * a % m)
unfolding multiply_odd Option.bind
multiply_odd-odd a p ret m h k e = rw (e, mul_long-small ret a k h) refl

multiply_odd-even : (a p ret m : ℕ) → p % 2 == 1 ≡ false → multiply_odd a p ret m ≡ some ret
unfolding multiply_odd Option.bind
multiply_odd-even a p ret m e = rw e refl

-- A round, with the value that it leaves in `ret`.
power_loop-round :
    (fuel a q ret ret' m : ℕ)
    → a < 2 ^ 31
    → multiply_odd a (suc q) ret m ≡ some ret'
    → power_loop (suc fuel) a (suc q) ret m ≡ power_loop fuel (a * a % m) (suc q / 2) ret' m
unfolding power_loop Option.bind
power_loop-round fuel a q ret ret' m h e = rw (power_loop, e, mul_long-small a a h h) refl

power_loop-power :
    (fuel a p ret m : ℕ)
    → p < fuel
    → 1 < m
    → m ≤ 2 ^ 31
    → a < m
    → ret < m
    → power_loop fuel a p ret m ≡ some (ret * a ^ p % m)
unfolding power_loop
power_loop-power zero a p ret m f h k l l' = ground arith
power_loop-power (suc fuel) a zero ret m f h k l l' =
    ap some
      (sym (ap (λ y. ret * y % m) (pow-zero a) ∙ ap (λ y. y % m) (mul-one ret) ∙ mod-eq_of_lt l'))
power_loop-power (suc fuel) a (suc q) ret m f h k l l' = elim (Bool-cases (suc q % 2 == 1)) [
  | inl e ↦
      let d : suc q ≡ suc (suc q / 2 + suc q / 2) = ground (arith, e) in
      power_loop-round fuel a q ret (ret * a % m) m (omega arith)
        (multiply_odd-odd a (suc q) ret m (omega arith) (omega arith) e)
      ∙ power_loop-power fuel (a * a % m) (suc q / 2) (ret * a % m) m (omega arith) h k
          (mod-lt (a * a) (omega arith)) (mod-lt (ret * a) (omega arith))
      ∙ ap some (odd-power ret a (suc q / 2) m ∙ ap (λ y. ret * a ^ y % m) (sym d))
  | inr e ↦
      let d : suc q ≡ suc q / 2 + suc q / 2 = ground (arith, e) in
      power_loop-round fuel a q ret ret m (omega arith) (multiply_odd-even a (suc q) ret m e)
      ∙ power_loop-power fuel (a * a % m) (suc q / 2) ret m (omega arith) h k
          (mod-lt (a * a) (omega arith)) l'
      ∙ ap some (square-power ret a (suc q / 2) m ∙ ap (λ y. ret * a ^ y % m) (sym d))
]

-- For a modulus above 1 and at most 2^31, the loop ends without an overflow, and the result is
-- the power modulo it.
pub fastpower-power : (a p m : ℕ) → 1 < m → m ≤ 2 ^ 31 → fastpower a p m ≡ some (a ^ p % m)
unfolding fastpower
fastpower-power a p m h k =
    power_loop-power (suc p) (a % m) p 1 m (omega arith) h k (mod-lt a (omega arith)) h
    ∙ ap some (ap (λ y. y % m) (one-mul ((a % m) ^ p)) ∙ pow-mod a m p)
