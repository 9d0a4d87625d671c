-- ===== src/Luogu/Products/Ranges.antt =====
-- The queries are answered by the products of their ranges.
use my_practise.Base.{
  ℕ, zero, suc, ◌+◌, ◌-◌, ◌*◌, ◌%◌, ◌^◌, ◌≤◌, ◌<◌, ◌≡◌, refl, sym, ap, ◌∙◌, some, List, [], ◌∷◌,
  map, length, take, drop, update, eq→==, ne→==, arith,
}
use mathlib.Core.Option
use Prim.Native.Nat.{bit_xor}
use native.Mathlib.Nat.{mod-lt, mod-eq_of_lt, mul_assoc, mul_comm, one-mul, mul-one}
use my_practise.Luogu.Powers.Mod.{mod-mul_left, mod-mul_right}
use my_practise.Luogu.Powers.Power.{mul_long-small}
use my_practise.Luogu.Powers.Inverses.{Undivided}
use my_practise.Luogu.Prefix.Sums.{Within, query}
use my_practise.Luogu.Products.{
  modulus, load_inverses, load_products, range_product, xor_answers, xor_products, print_products,
}
use my_practise.Luogu.Products.Prime.{modulus-Undivided}
use my_practise.Luogu.Products.Units.{
  product, Fine, load_inverses-Inverse, product-ne, product-take,
}

-- The entries behind b are the products of the prefixes, times the entry b.
abbrev Prefixes : ℕ → ℕ → List ℕ → (ℕ → ℕ) → (ℕ → ℕ) → Type 0
Prefixes p b xs num num' = (k : ℕ) → k ≤ length xs → num' (b + k) ≡ num b * product (take k xs) % p

update_at : (f : ℕ → ℕ) (a v : ℕ) → update f a v a ≡ v
update_at f a v = rw (eq→== a a refl)

update_below : (f : ℕ → ℕ) (a v b : ℕ) → b < a → update f a v b ≡ f b
update_below f a v b h = rw (ne→== a b (λ e. omega arith))

Prefixes-cons :
    (p b x : ℕ) (xs : List ℕ) (num num' : ℕ → ℕ)
    → num' b ≡ num b
    → num b < p
    → ((k : ℕ) → k ≤ length xs → num' (suc b + k) ≡ x * num b * product (take k xs) % p)
    → Prefixes p b (x ∷ xs) num num'
Prefixes-cons p b x xs num num' e s h zero m =
    ap num' (omega arith) ∙ e ∙ sym (mod-eq_of_lt s) ∙ ap (λ y. y % p) (sym (mul-one (num b)))
Prefixes-cons p b x xs num num' e s h (suc k) m =
    ap num' (omega arith)
    ∙ h k (omega arith)
    ∙ ap (λ y. y % p)
        (ap (λ y. y * product (take k xs)) (mul_comm x (num b))
          ∙ mul_assoc (num b) x (product (take k xs)))

load_products-Prefixes :
    (p b : ℕ) (xs : List ℕ) (num : ℕ → ℕ)
    → 1 < p
    → p < 2 ^ 31
    → Fine p xs
    → num b < p
    → (num' : ℕ → ℕ) × (load_products p b xs num ≡ some num')
      × ((j : ℕ) → j ≤ b → num' j ≡ num j)
      × Prefixes p b xs num num'
unfolding load_products Option.bind
load_products-Prefixes p b [] num h l f s = (
  num,
  refl,
  λ j m. refl,
  λ k m.
      (let z : k ≡ 0 = omega arith in
        ap num (omega arith)
        ∙ sym (mod-eq_of_lt s)
        ∙ ap (λ y. y % p) (sym (ap (λ n. num b * product (take n [])) z ∙ mul-one (num b)))),
)
load_products-Prefixes p b (x ∷ xs) num h l (small, n, f) s =
    let y = x * num b in
    let num1 = update num (suc b) (y % p) in
    let at = update_at num (suc b) (y % p) in
    let r = mod-lt y {m = p} (omega arith) in
    let (num', run, keeps, prefixes) =
      load_products-Prefixes p (suc b) xs num1 h l f (omega arith) in
    let keep : (j : ℕ) → j ≤ b → num' j ≡ num j =
      λ j m. keeps j (omega arith) ∙ update_below num (suc b) (y % p) j (omega arith) in
    (
      num',
      rw (mul_long-small x (num b) small (omega arith)) run,
      keep,
      Prefixes-cons p b x xs num num' (keep b (omega arith)) s (λ k m.
          prefixes k m
          ∙ ap (λ z. z * product (take k xs) % p) at
          ∙ mod-mul_left y (product (take k xs)) p),
    )

-- A quotient of two prefixes.
quotient : (p a b i : ℕ) → i * (a % p) % p ≡ 1 → b % p ≡ a * b % p * i % p
quotient p a b i e = sym (
    mod-mul_left (a * b) i p
    ∙ ap (λ x. x % p)
        (ap (λ x. x * i) (mul_comm a b) ∙ mul_assoc b a i ∙ ap (λ x. b * x) (mul_comm a i))
    ∙ sym (mod-mul_right b (i * a) p)
    ∙ ap (λ x. b * x % p) (sym (mod-mul_right i a p) ∙ e)
    ∙ ap (λ x. x % p) (mul-one b))

abbrev pub part_product : ℕ → List ℕ → ℕ × ℕ → ℕ
part_product p xs (l, k) = product (take k (drop l xs)) % p

abbrev pub xor_all : ℕ → List ℕ → ℕ
xor_all ret [] = ret
xor_all ret (x ∷ xs) = xor_all (bit_xor ret x) xs

some-eq : (f g : ℕ → ℕ) → some f ≡ some g → (i : ℕ) → f i ≡ g i
some-eq f g e i = ap (λ h. h i) (let q : f ≡ g = cc e in q)

module _ (p : ℕ) (h : 1 < p) (l : p < 2 ^ 31) (u : Undivided p) (xs : List ℕ) (f : Fine p xs)
    (num inv : ℕ → ℕ) (prefix : (k : ℕ) → k ≤ length xs → num k ≡ product (take k xs) % p)
    (table : load_inverses p ≡ some inv) where
  answered :
      (a k : ℕ)
      → a + k ≤ length xs
      → range_product p num inv (suc a, a + k) ≡ some (part_product p xs (a, k))
  unfolding range_product
  answered a k m =
      let left = product (take a xs) in
      let right = product (take k (drop a xs)) in
      let n = product-ne p h l u a xs f in
      let low = mod-lt left {m = p} (omega arith) in
      let (inv', run, inverse) = load_inverses-Inverse p h l u (left % p) (omega arith) low in
      let i = inv (left % p) in
      let same : inv' (left % p) ≡ i = some-eq inv' inv (sym run ∙ table) (left % p) in
      let at_l : num a ≡ left % p = prefix a (omega arith) in
      let at_r : num (a + k) ≡ left * right % p =
        prefix (a + k) m ∙ ap (λ x. x % p) (product-take a k xs) in
      let high = mod-lt (left * right) {m = p} (omega arith) in
      let bound = inverse.0 in
      let start : suc a - 1 ≡ a = omega arith in
      rw (start, at_l, at_r, mul_long-small (left * right % p) i (omega arith) (omega arith))
        (ap some
          (sym (quotient p left right i (ap (λ x. x * (left % p) % p) (sym same) ∙ inverse.1))))

  answers :
      (ret : ℕ) (ranges : List (ℕ × ℕ))
      → Within (length xs) ranges
      → xor_answers p num inv ret (map query ranges)
        ≡ some (xor_all ret (map (part_product p xs) ranges))
  unfolding xor_answers Option.bind
  answers ret [] w = refl
  answers ret ((a, k) ∷ ranges) (m, w) =
      rw (answered a k m) (answers (bit_xor ret (part_product p xs (a, k))) ranges w)

xor_products-ranges :
    (p : ℕ) (xs : List ℕ) (ranges : List (ℕ × ℕ))
    → 1 < p
    → p < 2 ^ 31
    → Undivided p
    → Fine p xs
    → Within (length xs) ranges
    → xor_products p xs (map query ranges) ≡ some (xor_all 0 (map (part_product p xs) ranges))
unfolding xor_products Option.bind
xor_products-ranges p xs ranges h l u f w =
    let num0 : ℕ → ℕ = update (λ i. 0) 0 1 in
    let (inv, table, one) = load_inverses-Inverse p h l u 1 (omega arith) h in
    let (num, run, keep, prefixes) = load_products-Prefixes p 0 xs num0 h l f h in
    let prefix : (k : ℕ) → k ≤ length xs → num k ≡ product (take k xs) % p = λ k m.
      ap num (omega arith) ∙ prefixes k m ∙ ap (λ x. x % p) (one-mul (product (take k xs))) in
    rw (table, run) (answers p h l u xs f num inv prefix table 0 ranges w)

-- For numbers of the type `int` that 1145141 does not divide, and queries within them, which may be
-- empty but start at 1 at least, the program's products do not overflow, and it prints the
-- exclusive or of the products of the ranges modulo 1145141.
pub print_products-ranges :
    (xs : List ℕ) (ranges : List (ℕ × ℕ))
    → Fine modulus xs
    → Within (length xs) ranges
    → print_products xs (map query ranges) ≡ some (xor_all 0 (map (part_product modulus xs) ranges))
unfolding print_products
print_products-ranges xs ranges f w =
    xor_products-ranges modulus xs ranges (omega arith) (omega arith) modulus-Undivided f w
