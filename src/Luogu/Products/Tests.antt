-- ===== src/Luogu/Products/Tests.antt =====
-- Two queries on three numbers.
use my_practise.Base.{ℕ, ◌≡◌, refl, some, List, [], ◌∷◌, map, arith}
use my_practise.Luogu.Prefix.Sums.{query}
use my_practise.Luogu.Products.{modulus, xor_products, print_products}
use my_practise.Luogu.Products.Ranges.{part_product, xor_all, print_products-ranges}

abbrev numbers : List ℕ
numbers = 2000 ∷ 3000 ∷ 5 ∷ []

abbrev ranges : List (ℕ × ℕ)
ranges = (0, 2) ∷ (1, 2) ∷ []

-- Modulo 7 the products 6 and 1 of the ranges have the exclusive or 7.
xor_products-run : xor_products 7 (2 ∷ 3 ∷ 5 ∷ []) ((1, 2) ∷ (2, 3) ∷ []) ≡ some 7
unfolding xor_products
xor_products-run = refl

print_products-ranges_example :
    print_products numbers (map query ranges)
    ≡ some (xor_all 0 (map (part_product modulus numbers) ranges))
print_products-ranges_example =
    print_products-ranges numbers ranges
      (omega arith, omega arith, (omega arith, omega arith, (omega arith, omega arith, tt)))
      (omega arith, (omega arith, tt))
