-- ===== src/Luogu/Octal/Values.antt =====
-- The number printed is the number read.
use my_practise.Base.{
  ℕ, zero, suc, ◌+◌, ◌-◌, ◌*◌, ◌/◌, ◌%◌, ◌<◌, ◌≤◌, ◌≡◌, refl, sym, ap, ◌∙◌, subst, List, [], ◌∷◌,
  ◌++◌, ◌==◌, length, take, drop, Bool-cases, inl, inr, arith,
}
use my_practise.Luogu.Octal.{pack, three_digits, convert_groups, strip_zeros, hexadecimal}

-- The value of digits in a base, behind digits of the value acc.
abbrev pub value : ℕ → ℕ → List ℕ → ℕ
value base acc [] = acc
value base acc (d ∷ ds) = value base (acc * base + d) ds

abbrev pub Octal : List ℕ → Type 0
Octal [] = Unit
Octal (d ∷ ds) = (d < 8) × Octal ds

pack-value : (v : ℕ) (ds : List ℕ) → pack v ds ≡ value 8 v ds
unfolding pack
pack-value v [] = refl
pack-value v (d ∷ ds) = pack-value (v * 8 + d) ds

value-append : (b acc : ℕ) (xs ys : List ℕ) → value b acc (xs ++ ys) ≡ value b (value b acc xs) ys
value-append b acc [] ys = refl
value-append b acc (x ∷ xs) ys = value-append b (acc * b + x) xs ys

value-three_digits : (acc v : ℕ) → v < 4096 → value 16 acc (three_digits v) ≡ acc * 4096 + v
value-three_digits acc v h = omega arith

value-convert_groups :
    (k acc : ℕ) (ds : List ℕ)
    → length ds ≡ k * 4
    → Octal ds
    → value 16 acc (convert_groups k ds) ≡ value 8 acc ds
unfolding convert_groups pack
value-convert_groups zero acc [] e o = refl
value-convert_groups zero acc (x ∷ ds) e o = ground arith
value-convert_groups (suc k) acc [] e o = ground arith
value-convert_groups (suc k) acc (a ∷ []) e o = ground arith
value-convert_groups (suc k) acc (a ∷ b ∷ []) e o = ground arith
value-convert_groups (suc k) acc (a ∷ b ∷ c ∷ []) e o = ground arith
value-convert_groups (suc k) acc (a ∷ b ∷ c ∷ d ∷ ds) e (la, (lb, (lc, (ld, o)))) =
    value-append 16 acc (three_digits (pack 0 (a ∷ b ∷ c ∷ d ∷ []))) (convert_groups k ds)
    ∙ ap (λ x. value 16 x (convert_groups k ds))
        (value-three_digits acc (pack 0 (a ∷ b ∷ c ∷ d ∷ [])) (omega arith))
    ∙ value-convert_groups k (acc * 4096 + pack 0 (a ∷ b ∷ c ∷ d ∷ [])) ds (omega arith) o
    ∙ ap (λ x. value 8 x ds) (omega arith)

value-strip_zeros : (ds : List ℕ) → value 16 0 (strip_zeros ds) ≡ value 16 0 ds
unfolding strip_zeros
value-strip_zeros [] = refl
value-strip_zeros (d ∷ ds) = elim (Bool-cases (d == 0)) [
  | inl e ↦
      let p : 0 ≡ 0 * 16 + d = ground (arith, e) in
      rw e (value-strip_zeros ds ∙ ap (λ x. value 16 x ds) p)
  | inr e ↦ rw e refl
]

-- Fewer than four digits.
value-small : (ds : List ℕ) → length ds < 4 → Octal ds → value 8 0 ds < 4096
value-small [] h o = omega arith
value-small (a ∷ []) h (la, o) = omega arith
value-small (a ∷ b ∷ []) h (la, (lb, o)) = omega arith
value-small (a ∷ b ∷ c ∷ []) h (la, (lb, (lc, o))) = omega arith
value-small (a ∷ b ∷ c ∷ d ∷ ds) h o = ground arith

Octal-take : (k : ℕ) (ds : List ℕ) → Octal ds → Octal (take k ds)
Octal-take zero ds o = tt
Octal-take (suc k) [] o = tt
Octal-take (suc k) (d ∷ ds) (l, o) = (l, Octal-take k ds o)

Octal-drop : (k : ℕ) (ds : List ℕ) → Octal ds → Octal (drop k ds)
Octal-drop zero ds o = o
Octal-drop (suc k) [] o = tt
Octal-drop (suc k) (d ∷ ds) (l, o) = Octal-drop k ds o

length-take : (k : ℕ) (ds : List ℕ) → length (take k ds) ≤ k
length-take zero ds = omega arith
length-take (suc k) [] = omega arith
length-take (suc k) (d ∷ ds) = ground (arith, length-take k ds)

length-drop : (k : ℕ) (ds : List ℕ) → length (drop k ds) ≡ length ds - k
length-drop zero ds = omega arith
length-drop (suc k) [] = omega arith
length-drop (suc k) (d ∷ ds) = length-drop k ds ∙ omega arith

take-drop : (k : ℕ) (ds : List ℕ) → take k ds ++ drop k ds ≡ ds
take-drop zero ds = refl
take-drop (suc k) [] = refl
take-drop (suc k) (d ∷ ds) = ap (λ xs. d ∷ xs) (take-drop k ds)

-- For octal digits, the hexadecimal digits printed have the value of the digits read.
pub hexadecimal-value : (s : List ℕ) → Octal s → value 16 0 (hexadecimal s) ≡ value 8 0 s
unfolding hexadecimal
hexadecimal-value s o =
    let n = length s in
    let k = n % 4 in
    let front = take k s in
    let back = drop k s in
    let few = length-take k s in
    let whole : length back ≡ n / 4 * 4 = length-drop k s ∙ omega arith in
    let v = pack 0 front in
    let same : v ≡ value 8 0 front = pack-value 0 front in
    let small : v < 4096 =
      subst (λ x. x < 4096) (sym same) (value-small front (omega arith) (Octal-take k s o)) in
    value-strip_zeros (three_digits v ++ convert_groups (n / 4) back)
    ∙ value-append 16 0 (three_digits v) (convert_groups (n / 4) back)
    ∙ ap (λ x. value 16 x (convert_groups (n / 4) back)) (value-three_digits 0 v small)
    ∙ value-convert_groups (n / 4) (0 * 4096 + v) back whole (Octal-drop k s o)
    ∙ ap (λ x. value 8 x back) (omega arith)
    ∙ sym (value-append 8 0 front back)
    ∙ ap (value 8 0) (take-drop k s)
