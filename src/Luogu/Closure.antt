-- ===== src/Luogu/Closure.antt =====
-- luogu/B3611.cpp: the transitive closure of a graph of n vertices, by rows of bits.
pub mod Walks
mod Tests
use my_practise.Base.{ℕ, zero, suc, Bool, true, false, ◌||◌, ◌==◌, if◌then◌else◌}

-- `a[i][j]`
abbrev pub Matrix : Type 0
Matrix = ℕ → ℕ → Bool

-- `a[i] |= a[k]`
abbrev pub or_row : ℕ → ℕ → Matrix → Matrix
or_row i k a i' j = if i' == i then a i j || a k j else a i' j

-- `if(a[i][k]) a[i] |= a[k];`
unfoldable pub relax : ℕ → ℕ → Matrix → Matrix
relax k i a = if a i k then or_row i k a else a

-- The loop over i, and the loop over k around it.
unfoldable pub relax_rows : ℕ → ℕ → ℕ → Matrix → Matrix
unfolding relax
relax_rows k zero i a = a
relax_rows k (suc rounds) i a = relax_rows k rounds (suc i) (relax k i a)

unfoldable pub relax_all : ℕ → ℕ → ℕ → Matrix → Matrix
unfolding relax_rows
relax_all n zero k a = a
relax_all n (suc rounds) k a = relax_all n rounds (suc k) (relax_rows k n 0 a)

unfoldable pub closure : ℕ → Matrix → Matrix
unfolding relax_all
closure n a = relax_all n n 0 a
