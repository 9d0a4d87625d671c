-- ===== src/Luogu/Matching/Counts.antt =====
-- How many right vertices a left vertex has, and how many are not visited yet.
use my_practise.Base.{
  ℕ, zero, suc, ◌+◌, ◌≤◌, ◌<◌, ◌≡◌, ◌≢◌, refl, Bool, false, ◌||◌, List, [], ◌∷◌, ◌==◌,
  if◌then◌else◌, Bool-cases, inl, inr, ap, ◌∙◌, arith,
}
use my_practise.Luogu.Matching.{State, mark, connect}

-- 1 if the two are equal.
abbrev pub one : ℕ → ℕ → ℕ
one y x = if y == x then 1 else 0

-- Of the right vertices 1 to m, those that `con` gives the left vertex x; for x = 0 the free ones.
unfoldable pub count : ℕ → (ℕ → ℕ) → ℕ → ℕ
count x con zero = 0
count x con (suc m) = one (con (suc m)) x + count x con m

unfoldable pub unseen : (ℕ → Bool) → ℕ → ℕ
unseen vis zero = 0
unseen vis (suc m) = (if vis (suc m) then 0 else 1) + unseen vis m

abbrev pub elem : ℕ → List ℕ → Bool
elem v [] = false
elem v (w ∷ ws) = v == w || elem v ws

-- Every target is a right vertex.
abbrev pub InRange : ℕ → List ℕ → Type 0
InRange m [] = Unit
InRange m (v ∷ vs) = (1 ≤ v) × (v ≤ m) × InRange m vs

count-connect_out :
    (x v u m : ℕ) (s : State) → m < v → count x (connect v u s).con m ≡ count x s.con m
unfolding count
count-connect_out x v u zero s h = refl
count-connect_out x v u (suc m) s h = ground (arith, count-connect_out x v u m s)

pub count-connect :
    (x v u m : ℕ) (s : State)
    → 1 ≤ v
    → v ≤ m
    → count x (connect v u s).con m + one (s.con v) x ≡ count x s.con m + one u x
unfolding count
count-connect x v u zero s h k = ground arith
count-connect x v u (suc m) s h k = elim (Bool-cases (suc m == v)) [
  | inl e ↦
      let p : suc m ≡ v = ground (arith, e) in
      rw e (ground (arith, ap s.con p, count-connect_out x v u m s (omega arith)))
  | inr e ↦
      let p : suc m ≢ v = ground (arith, e) in
      rw e (ground (arith, count-connect x v u m s h (omega arith)))
]

unseen-mark_out : (v m : ℕ) (s : State) → m < v → unseen (mark v s).vis m ≡ unseen s.vis m
unfolding unseen
unseen-mark_out v zero s h = refl
unseen-mark_out v (suc m) s h = ground (arith, unseen-mark_out v m s)

pub unseen-mark :
    (v m : ℕ) (s : State)
    → 1 ≤ v
    → v ≤ m
    → s.vis v ≡ false
    → unseen (mark v s).vis m + 1 ≡ unseen s.vis m
unfolding unseen
unseen-mark v zero s h k e = ground arith
unseen-mark v (suc m) s h k e = elim (Bool-cases (suc m == v)) [
  | inl q ↦
      let p : suc m ≡ v = ground (arith, q) in
      rw (q, ap s.vis p ∙ e) (ground (arith, unseen-mark_out v m s (omega arith)))
  | inr q ↦
      let p : suc m ≢ v = ground (arith, q) in
      rw q (ground (arith, unseen-mark v m s h (omega arith) e))
]

pub unseen-le : (vis : ℕ → Bool) (m : ℕ) → unseen vis m ≤ m
unfolding unseen
unseen-le vis zero = ground arith
unseen-le vis (suc m) = ground (arith, unseen-le vis m)

pub count_ext : (x : ℕ) (f g : ℕ → ℕ) (m : ℕ) → ((w : ℕ) → g w ≡ f w) → count x f m ≡ count x g m
unfolding count
count_ext x f g zero h = refl
count_ext x f g (suc m) h = ground (arith, h (suc m), count_ext x f g m h)
