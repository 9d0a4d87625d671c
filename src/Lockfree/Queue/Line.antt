-- ===== src/Lockfree/Queue/Line.antt =====
-- What the nodes of a queue stand for: addresses and values from the front to the tail.
use my_practise.Base.{ℕ, ◌≡◌, ◌≢◌, refl, subst, Option, none, some, [], ◌∷◌, ◌++◌, arith}
use my_practise.Lockfree.Stack.{assign}
use my_practise.Lockfree.Stack.Chain.{Cells, Apart}

-- From the dummy p the distinct nodes `xs`, which hold their values, lead to the tail t, behind
-- which there is no node.
abbrev pub Line : (ℕ → ℕ) → (ℕ → Option ℕ) → ℕ → Cells → ℕ → Type 0
Line next value p [] t = (p ≡ t) × (next p ≡ 0)
Line next value p ((a, v) ∷ xs) t =
    (next p ≡ a)
    × (a ≢ 0)
    × (value a ≡ some v)
    × Apart p ((a, v) ∷ xs)
    × (p ≢ t)
    × Line next value a xs t

Apart-snoc : (p node v : ℕ) (xs : Cells) → Apart p xs → p ≢ node → Apart p (xs ++ (node, v) ∷ [])
Apart-snoc p node v [] h n = (n, tt)
Apart-snoc p node v ((a, w) ∷ xs) (h, h') n = (h, Apart-snoc p node v xs h' n)

-- The tail is the last node: it has no successor, and it is not a node that is apart from all.
pub Line-tail :
    (next : ℕ → ℕ) (value : ℕ → Option ℕ) (p : ℕ) (xs : Cells) (t node : ℕ)
    → Line next value p xs t
    → node ≢ p
    → Apart node xs
    → (next t ≡ 0) × (t ≢ node)
Line-tail next value p [] t node (e, z) n h = (subst (λ x. next x ≡ 0) e z, ground (arith, e, n))
Line-tail next value p ((a, v) ∷ xs) t node l n h = Line-tail next value a xs t node l.5 h.0 h.1

pub Line-snoc :
    (next : ℕ → ℕ) (value : ℕ → Option ℕ) (p : ℕ) (xs : Cells) (t node v : ℕ)
    → Line next value p xs t
    → node ≢ 0
    → node ≢ p
    → Apart node xs
    → t ≢ node
    → Line
        (assign (assign next node 0) t node)
        (assign value node (some v))
        p
        (xs ++ (node, v) ∷ [])
        node
Line-snoc next value p [] t node v (e, z) f n h k = (
  ground (arith, e),
  f,
  ground arith,
  (ground (arith, n), tt),
  ground (arith, n),
  (refl, ground (arith, k)),
)
Line-snoc next value p ((a, w) ∷ xs) t node v l f n h k = (
  ground (arith, l.0, l.4, n),
  l.1,
  ground (arith, l.2, h.0),
  Apart-snoc p node v ((a, w) ∷ xs) l.3 (ground (arith, n)),
  ground (arith, n),
  Line-snoc next value a xs t node v l.5 f h.0 h.1 k,
)

pub Line-clear :
    (next : ℕ → ℕ) (value : ℕ → Option ℕ) (a p : ℕ) (xs : Cells) (t : ℕ)
    → Apart a xs
    → Line next value p xs t
    → Line next (assign value a none) p xs t
Line-clear next value a p [] t h l = l
Line-clear next value a p ((b, w) ∷ xs) t h l =
    (l.0, l.1, ground (arith, h.0, l.2), l.3, l.4, Line-clear next value a b xs t h.1 l.5)

pub Line-Apart :
    (next : ℕ → ℕ) (value : ℕ → Option ℕ) (p : ℕ) (xs : Cells) (t : ℕ)
    → Line next value p xs t
    → Apart p xs
Line-Apart next value p [] t l = tt
Line-Apart next value p ((a, w) ∷ xs) t l = l.3
