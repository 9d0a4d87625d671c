-- ===== src/Luogu/Powers.antt =====
-- luogu/P3811.cpp: powers modulo a number by repeated squaring, and the inverses of 1 to n in a row.
-- The arguments are not negative. A `long` that overflows is undefined behaviour, which is none.
pub mod Mod
pub mod Power
pub mod Inverses
mod Tests
use my_practise.Base.{
  ℕ, zero, suc, ◌+◌, ◌-◌, ◌*◌, ◌/◌, ◌%◌, ◌^◌, Bool, true, false, Option, none, some, ltb, ◌==◌,
  if◌then◌else◌, update,
}
use mathlib.Core.Option

-- A product of two values of the type `long`.
unfoldable pub mul_long : ℕ → ℕ → Option ℕ
mul_long x y = if ltb (x * y) (2 ^ 63) then some (x * y) else none

-- `if (p & 1) (ret *= a) %= mod;`
unfoldable pub multiply_odd : ℕ → ℕ → ℕ → ℕ → Option ℕ
unfolding mul_long Option.bind
multiply_odd a p ret m =
    if p % 2 == 1 then Option.bind (mul_long ret a) (λ x. some (x % m)) else some ret

-- The loop of `fastpower`, on fuel.
unfoldable pub power_loop : ℕ → ℕ → ℕ → ℕ → ℕ → Option ℕ
unfolding multiply_odd mul_long Option.bind
power_loop zero a p ret m = none
power_loop (suc fuel) a zero ret m = some ret
power_loop (suc fuel) a (suc q) ret m =
    Option.bind (multiply_odd a (suc q) ret m)
      (λ ret'. Option.bind (mul_long a a) (λ x. power_loop fuel (x % m) (suc q / 2) ret' m))

unfoldable pub fastpower : ℕ → ℕ → ℕ → Option ℕ
unfolding power_loop
fastpower a p m = power_loop (suc p) (a % m) p 1 m

-- The loop of `linear` for the numbers i to i + rounds - 1.
unfoldable pub linear_loop : ℕ → ℕ → ℕ → (ℕ → ℕ) → Option (ℕ → ℕ)
unfolding mul_long Option.bind
linear_loop zero i p inv = some inv
linear_loop (suc rounds) i p inv =
    Option.bind (mul_long (p - p / i) (inv (p % i)))
      (λ x. linear_loop rounds (suc i) p (update inv i (x % p)))

-- `linear`: the array `inv`, of which it prints the entries 1 to n.
unfoldable pub linear : ℕ → ℕ → Option (ℕ → ℕ)
unfolding linear_loop
linear n p = linear_loop (n - 1) 2 p (update (λ i. 0) 1 1)
