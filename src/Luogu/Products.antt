-- ===== src/Luogu/Products.antt =====
-- luogu/B3645.cpp: products over ranges modulo a prime, from products of prefixes and a table of
-- inverses. The numbers are not negative; a `long` that overflows is undefined behaviour, which is
-- none. The table is filled by the statement that luogu/P3811.cpp has in `linear`.
pub mod Prime
mod Units
pub mod Ranges
mod Tests
use my_practise.Base.{ℕ, zero, suc, ◌-◌, ◌%◌, Option, some, List, [], ◌∷◌, update}
use mathlib.Core.Option
use Prim.Native.Nat.{bit_xor}
use my_practise.Luogu.Powers.{mul_long, linear_loop}

-- `p`
abbrev pub modulus : ℕ
modulus = 1145141

-- The table `inv`.
unfoldable pub load_inverses : ℕ → Option (ℕ → ℕ)
unfolding linear_loop
load_inverses p = linear_loop (p - 2) 2 p (update (λ i. 0) 1 1)

-- `num[i] = (num[i] * num[i - 1]) % p` for the numbers behind the one at `before`.
unfoldable pub load_products : ℕ → ℕ → List ℕ → (ℕ → ℕ) → Option (ℕ → ℕ)
unfolding mul_long Option.bind
load_products p before [] num = some num
load_products p before (x ∷ rest) num =
    Option.bind (mul_long x (num before))
      (λ y. load_products p (suc before) rest (update num (suc before) (y % p)))

-- `(num[r] * inv[num[l - 1]]) % p`
unfoldable pub range_product : ℕ → (ℕ → ℕ) → (ℕ → ℕ) → ℕ × ℕ → Option ℕ
unfolding mul_long
range_product p num inv (l, r) = Option.map (λ y. y % p) (mul_long (num r) (inv (num (l - 1))))

-- `ret ^= …` for every query.
unfoldable pub xor_answers : ℕ → (ℕ → ℕ) → (ℕ → ℕ) → ℕ → List (ℕ × ℕ) → Option ℕ
unfolding range_product Option.bind
xor_answers p num inv ret [] = some ret
xor_answers p num inv ret (q ∷ qs) =
    Option.bind (range_product p num inv q) (λ y. xor_answers p num inv (bit_xor ret y) qs)

unfoldable pub xor_products : ℕ → List ℕ → List (ℕ × ℕ) → Option ℕ
unfolding load_inverses load_products xor_answers Option.bind
xor_products p numbers queries = Option.bind (load_inverses p) (λ inv.
    Option.bind (load_products p 0 numbers (update (λ i. 0) 0 1))
      (λ num. xor_answers p num inv 0 queries))

-- What `main` prints.
unfoldable pub print_products : List ℕ → List (ℕ × ℕ) → Option ℕ
print_products numbers queries = xor_products modulus numbers queries
