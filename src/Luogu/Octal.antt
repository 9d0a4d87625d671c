-- ===== src/Luogu/Octal.antt =====
-- luogu/B3617.cpp: from octal to hexadecimal, four digits to three at a time. A digit is its value: the
-- characters are those of `map`, and the input has octal digits only.
pub mod Values
mod Tests
use my_practise.Base.{
  ℕ, zero, suc, ◌+◌, ◌*◌, ◌/◌, ◌%◌, List, [], ◌∷◌, ◌++◌, ◌==◌, if◌then◌else◌, length, take, drop,
}

-- `v <<= 3; v |= (s[k] - '0')` for the digits of a group.
unfoldable pub pack : ℕ → List ℕ → ℕ
pack v [] = v
pack v (d ∷ ds) = pack (v * 8 + d) ds

-- The three digits `(v >> (4 * k)) & 15`.
abbrev pub three_digits : ℕ → List ℕ
three_digits v = v / 256 % 16 ∷ v / 16 % 16 ∷ v % 16 ∷ []

-- The groups of four digits behind the first group.
unfoldable pub convert_groups : ℕ → List ℕ → List ℕ
unfolding pack
convert_groups zero ds = []
convert_groups (suc rounds) ds =
    three_digits (pack 0 (take 4 ds)) ++ convert_groups rounds (drop 4 ds)

-- `while(i < len && ret[i] == '0') ++i;`
unfoldable pub strip_zeros : List ℕ → List ℕ
strip_zeros [] = []
strip_zeros (d ∷ ds) = let rest = strip_zeros ds in if d == 0 then rest else d ∷ ds

-- The digits that `main` prints.
unfoldable pub hexadecimal : List ℕ → List ℕ
unfolding pack convert_groups strip_zeros
hexadecimal s =
    let n = length s in
    strip_zeros (three_digits (pack 0 (take (n % 4) s)) ++ convert_groups (n / 4) (drop (n % 4) s))
