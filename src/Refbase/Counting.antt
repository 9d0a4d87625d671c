-- ===== src/Refbase/Counting.antt =====
-- How `RefCountIncrease` and `RefCountDecrease` change the number of holders of an object, its count
-- and its deletions.
use my_practise.Base.{
  ℕ, zero, suc, ◌+◌, ◌<◌, ◌≤◌, ◌≡◌, ◌≢◌, refl, ap, List, [], ◌∷◌, ◌++◌, ◌==◌, if◌then◌else◌, length,
  arith,
}
use my_practise.Refbase.{get_ref_ptr, set_ref_ptr}

-- Whether the pointer `p` points to the object `a`; null points to none.
unfoldable pub hit : ℕ → ℕ → ℕ
hit a p = if p == 0 then 0 else if a == p then 1 else 0

-- How many of a list of pointers point to the object `a`.
unfoldable pub holders : ℕ → List ℕ → ℕ
unfolding hit
holders a [] = 0
holders a (p ∷ ps) = hit a p + holders a ps

pub holders-length : (a : ℕ) (ps : List ℕ) → holders a ps ≤ length ps
unfolding holders hit
holders-length a [] = ground arith
holders-length a (p ∷ ps) = ground (arith, holders-length a ps)

pub holders-set :
    (a i v : ℕ) (ps : List ℕ)
    → i < length ps
    → holders a (set_ref_ptr i v ps) + hit a (get_ref_ptr i ps) ≡ holders a ps + hit a v
unfolding holders set_ref_ptr get_ref_ptr
holders-set a i v [] h = ground arith
holders-set a zero v (p ∷ ps) h = ground arith
holders-set a (suc i) v (p ∷ ps) h = ground (arith, holders-set a i v ps)

pub holders-append : (a p : ℕ) (ps : List ℕ) → holders a (ps ++ p ∷ []) ≡ holders a ps + hit a p
unfolding holders
holders-append a p [] = ground arith
holders-append a p (q ∷ ps) = ground (arith, holders-append a p ps)

pub get-append : (p : ℕ) (ps : List ℕ) → get_ref_ptr (length ps) (ps ++ p ∷ []) ≡ p
unfolding get_ref_ptr
get-append p [] = refl
get-append p (q ∷ ps) = get-append p ps

pub get-set : (i v : ℕ) (ps : List ℕ) → i < length ps → get_ref_ptr i (set_ref_ptr i v ps) ≡ v
unfolding get_ref_ptr set_ref_ptr
get-set i v [] h = ground arith
get-set zero v (p ∷ ps) h = refl
get-set (suc i) v (p ∷ ps) h = get-set i v ps (omega arith)

pub length-set : (i v : ℕ) (ps : List ℕ) → length (set_ref_ptr i v ps) ≡ length ps
unfolding set_ref_ptr
length-set i v [] = refl
length-set zero v (p ∷ ps) = refl
length-set (suc i) v (p ∷ ps) = ap suc (length-set i v ps)

pub get-holders : (a i : ℕ) (ps : List ℕ) → hit a (get_ref_ptr i ps) ≤ holders a ps
unfolding holders get_ref_ptr hit
get-holders a i [] = ground arith
get-holders a zero (p ∷ ps) = ground arith
get-holders a (suc i) (p ∷ ps) = ground (arith, get-holders a i ps)

pub set-set : (i v w : ℕ) (ps : List ℕ) → set_ref_ptr i v (set_ref_ptr i w ps) ≡ set_ref_ptr i v ps
unfolding set_ref_ptr
set-set i v w [] = refl
set-set zero v w (p ∷ ps) = refl
set-set (suc i) v w (p ∷ ps) = ap (λ r. p ∷ r) (set-set i v w ps)

pub get-set_ne :
    (i j v : ℕ) (ps : List ℕ) → i ≢ j → get_ref_ptr j (set_ref_ptr i v ps) ≡ get_ref_ptr j ps
unfolding get_ref_ptr set_ref_ptr
get-set_ne i j v [] h = refl
get-set_ne zero zero v (p ∷ ps) h = ground (arith, h)
get-set_ne zero (suc j) v (p ∷ ps) h = refl
get-set_ne (suc i) zero v (p ∷ ps) h = refl
get-set_ne (suc i) (suc j) v (p ∷ ps) h = get-set_ne i j v ps (omega arith)

pub get-append_lt :
    (j p : ℕ) (ps : List ℕ) → j < length ps → get_ref_ptr j (ps ++ p ∷ []) ≡ get_ref_ptr j ps
unfolding get_ref_ptr
get-append_lt j p [] h = ground arith
get-append_lt zero p (q ∷ ps) h = refl
get-append_lt (suc j) p (q ∷ ps) h = get-append_lt j p ps (omega arith)

-- Two pointers are two holders.
pub get-holders_pair :
    (a i j : ℕ) (ps : List ℕ)
    → i ≢ j
    → hit a (get_ref_ptr i ps) + hit a (get_ref_ptr j ps) ≤ holders a ps
unfolding holders get_ref_ptr hit
get-holders_pair a i j [] h = ground arith
get-holders_pair a zero zero (p ∷ ps) h = ground (arith, h)
get-holders_pair a zero (suc j) (p ∷ ps) h = ground (arith, get-holders a j ps)
get-holders_pair a (suc i) zero (p ∷ ps) h = ground (arith, get-holders a i ps)
get-holders_pair a (suc i) (suc j) (p ∷ ps) h =
    ground (arith, get-holders_pair a i j ps (omega arith))
