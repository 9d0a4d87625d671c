-- ===== src/Lockfree/Stack/Chain.antt =====
-- What the nodes of a stack stand for: addresses and values from the top down.
use my_practise.Base.{ℕ, ◌≡◌, ◌≢◌, Option, none, some, List, [], ◌∷◌, arith}
use my_practise.Lockfree.Stack.{assign}

abbrev pub Cells : Type 0
Cells = List (ℕ × ℕ)

abbrev pub Apart : ℕ → Cells → Type 0
Apart a [] = Unit
Apart a ((b, v) ∷ xs) = (a ≢ b) × Apart a xs

-- From `p` the nodes lead through the distinct nodes `xs`, which hold their values, to null.
abbrev pub Chain : (ℕ → ℕ) → (ℕ → Option ℕ) → ℕ → Cells → Type 0
Chain next value p [] = p ≡ 0
Chain next value p ((a, v) ∷ xs) =
    (p ≡ a) × (a ≢ 0) × (value a ≡ some v) × Apart a xs × Chain next value (next a) xs

-- Changes at an address that is not in the chain do not matter.
pub Chain-assign :
    (next : ℕ → ℕ) (value : ℕ → Option ℕ) (a n : ℕ) (v : Option ℕ) (p : ℕ) (xs : Cells)
    → Apart a xs
    → Chain next value p xs
    → Chain (assign next a n) (assign value a v) p xs
Chain-assign next value a n v p [] h c = c
Chain-assign next value a n v p ((b, w) ∷ xs) h c =
    let same : assign next a n b ≡ next b = ground (arith, h.0) in
    (
      c.0,
      c.1,
      ground (arith, h.0, c.2),
      c.3,
      rw same (Chain-assign next value a n v (next b) xs h.1 c.4),
    )

pub Chain-clear :
    (next : ℕ → ℕ) (value : ℕ → Option ℕ) (a : ℕ) (p : ℕ) (xs : Cells)
    → Apart a xs
    → Chain next value p xs
    → Chain next (assign value a none) p xs
Chain-clear next value a p [] h c = c
Chain-clear next value a p ((b, w) ∷ xs) h c =
    (c.0, c.1, ground (arith, h.0, c.2), c.3, Chain-clear next value a (next b) xs h.1 c.4)
