-- ===== src/Luogu/Octal/Tests.antt =====
-- The number 1751 in octal is 3e9 in hexadecimal, and 0 is printed as an empty line.
use my_practise.Base.{◌≡◌, refl, [], ◌∷◌, arith}
use my_practise.Luogu.Octal.{hexadecimal}
use my_practise.Luogu.Octal.Values.{value, hexadecimal-value}

hexadecimal-run : hexadecimal (1 ∷ 7 ∷ 5 ∷ 1 ∷ []) ≡ 3 ∷ 14 ∷ 9 ∷ []
unfolding hexadecimal
hexadecimal-run = refl

hexadecimal-zero : hexadecimal (0 ∷ []) ≡ []
unfolding hexadecimal
hexadecimal-zero = refl

hexadecimal-value_example :
    value 16 0 (hexadecimal (1 ∷ 7 ∷ 5 ∷ 1 ∷ 2 ∷ [])) ≡ value 8 0 (1 ∷ 7 ∷ 5 ∷ 1 ∷ 2 ∷ [])
hexadecimal-value_example =
    hexadecimal-value (1 ∷ 7 ∷ 5 ∷ 1 ∷ 2 ∷ [])
      (omega arith, (omega arith, (omega arith, (omega arith, (omega arith, tt)))))
