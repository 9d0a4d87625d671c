-- ===== src/Luogu/Masks.antt =====
-- luogu/B3633.cpp: sets of numbers below 64 as the bits of a `long long`. A value is the function of
-- its bits.
pub mod Sets
mod Tests
use my_practise.Base.{
  ℕ, zero, suc, ◌+◌, Bool, true, false, not, ◌&&◌, ◌||◌, List, [], ◌∷◌, ◌++◌, ◌==◌, if◌then◌else◌,
  length,
}

abbrev pub Word : Type 0
Word = ℕ → Bool

-- `a |= 1LL << v`
abbrev pub add_bit : ℕ → Word → Word
add_bit v a i = if i == v then true else a i

-- The loop that reads a set.
unfoldable pub read_set : List ℕ → Word → Word
read_set [] a = a
read_set (v ∷ vs) a = read_set vs (add_bit v a)

-- `coutEle`, the loop from bit i on.
unfoldable pub cout_from : ℕ → ℕ → Word → List ℕ
cout_from zero i value = []
cout_from (suc rounds) i value =
    let rest = cout_from rounds (suc i) value in if value i then i ∷ rest else rest

unfoldable pub cout_ele : Word → List ℕ
unfolding cout_from
cout_ele value = cout_from 64 0 value

-- `a == b`, for the bits from i on.
abbrev pub same_from : ℕ → ℕ → Word → Word → Bool
same_from zero i a b = true
same_from (suc rounds) i a b = (if a i then b i else not (b i)) && same_from rounds (suc i) a b

-- `a & b`, `a | b` and `~a`
abbrev pub word_and : Word → Word → Word
word_and a b i = a i && b i

abbrev pub word_or : Word → Word → Word
word_or a b i = a i || b i

abbrev pub word_not : Word → Word
word_not a i = not (a i)

-- The lines that `main` prints for the two lists.
pub record Lines : Type 0 where
  pub cnt_a : ℕ
  pub both : List ℕ
  pub either : List ℕ
  pub complement : List ℕ
  pub equal : Bool
  pub subset : Bool
  pub has_zero : Bool

unfoldable pub print_sets : List ℕ → List ℕ → Lines
unfolding read_set cout_ele
print_sets xs ys =
    let a = read_set xs (λ i. false) in
    let b = read_set ys (λ i. false) in
    record {
      cnt_a = length xs;
      both = cout_ele (word_and a b);
      either = cout_ele (word_or a b);
      complement = cout_ele (word_not a);
      equal = same_from 64 0 a b;
      subset = same_from 64 0 (word_and a b) a;
      has_zero = a 0;
    }
