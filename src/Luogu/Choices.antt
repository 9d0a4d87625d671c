-- ===== src/Luogu/Choices.antt =====
-- luogu/B3622.cpp: every choice of N and Y for n places, by recursion on the places.
pub mod Every
mod Tests
use my_practise.Base.{ℕ, zero, suc, ◌+◌, List, [], ◌∷◌, ◌++◌, ◌==◌, if◌then◌else◌, update, bytes}

-- What `cout << a` prints: the characters up to the first 0; `room` is what is left of the array.
unfoldable pub c_string : (ℕ → ℕ) → ℕ → ℕ → List ℕ
c_string a zero p = []
c_string a (suc room) p = let rest = c_string a room (suc p) in if a p == 0 then [] else a p ∷ rest

-- The array and the lines printed so far.
abbrev pub Written : Type 0
Written = (ℕ → ℕ) × List (List ℕ)

-- `dfs(i)`, with `rounds` for n - i.
unfoldable pub dfs : ℕ → ℕ → Written → Written
unfolding c_string
dfs zero i (a, out) = (a, out ++ c_string a 13 0 ∷ [])
dfs (suc rounds) i (a, out) =
    let no = dfs rounds (suc i) (update a i 78, out) in dfs rounds (suc i) (update no.0 i 89, no.1)

-- `main`
unfoldable pub print_choices : ℕ → List (List ℕ)
unfolding dfs
print_choices n = (dfs n 0 (update (λ p. 0) n 0, [])).1
