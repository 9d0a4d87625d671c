-- ===== src/Luogu/Prefix.antt =====
-- luogu/B3612.cpp: sums over ranges from sums of prefixes. The sums stay far below 2^63.
pub mod Sums
mod Tests
use my_practise.Base.{
  ℕ, zero, suc, ◌-◌, List, [], ◌∷◌, map, ℤ, pos, ◌+ℤ◌, ◌-ℤ◌, ◌==◌, if◌then◌else◌,
}

-- `pre[i] += pre[i - 1] + cur` for the numbers from the i-th on; `before` is i - 1.
unfoldable pub load_prefix : ℕ → List ℤ → (ℕ → ℤ) → ℕ → ℤ
load_prefix before [] pre = pre
load_prefix before (cur ∷ rest) pre =
    load_prefix (suc before) rest
      (λ j. if j == suc before then pre (suc before) +ℤ (pre before +ℤ cur) else pre j)

-- `pre[r] - pre[l - 1]`
unfoldable pub range_sum : (ℕ → ℤ) → ℕ × ℕ → ℤ
range_sum pre (l, r) = pre r -ℤ pre (l - 1)

-- The lines that `main` prints for the numbers and the queries.
unfoldable pub answers : List ℤ → List (ℕ × ℕ) → List ℤ
unfolding load_prefix range_sum
answers numbers queries = map (range_sum (load_prefix 0 numbers (λ j. pos 0))) queries
