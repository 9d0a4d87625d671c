-- ===== src/Refbase/Effects.antt =====
-- What the private operations of an `sptr` do to the pointers, and to the count and the deletions of
-- one object.
use my_practise.Base.{
  ℕ, ◌+◌, ◌^◌, ◌<◌, ◌≤◌, ◌≡◌, ◌⊎◌, refl, ap, ◌∙◌, inl, inr, List, [], ◌∷◌, ◌==◌, if◌then◌else◌,
  Bool-cases, arith,
}
use my_practise.Refbase.{
  Memory, get_ref_ptr, set_ref_ptr, increase, decrease, point, ref_count_increase,
  ref_count_decrease,
}
use my_practise.Refbase.Counting.{hit}

-- How often an object was deleted.
unfoldable pub times : ℕ → List ℕ → ℕ
times a [] = 0
times a (d ∷ ds) = (if a == d then 1 else 0) + times a ds

pub hit-le : (a p : ℕ) → hit a p ≤ 1
unfolding hit
hit-le a p = ground arith

pub hit-null : (a : ℕ) → hit a 0 ≡ 0
unfolding hit
hit-null a = refl

pub hit-times : (a p : ℕ) (ds : List ℕ) → times p ds ≡ 0 → (hit a p ≡ 0) ⊎ (times a ds ≡ 0)
unfolding hit
hit-times a p ds h = elim (Bool-cases (a == p)) [
  | inl e ↦ inr (ap (λ q. times q ds) (ground (arith, e)) ∙ h)
  | inr e ↦ inl (ground (arith, e))
]

pub increase-sptrs : (i : ℕ) (m : Memory) → (ref_count_increase i m).sptrs ≡ m.sptrs
unfolding ref_count_increase increase
increase-sptrs i m = elim (Bool-cases (get_ref_ptr i m.sptrs == 0)) [
  | inl e ↦ rw (e)
  | inr e ↦ rw (e)
]

pub increase-deleted : (i : ℕ) (m : Memory) → (ref_count_increase i m).deleted ≡ m.deleted
unfolding ref_count_increase increase
increase-deleted i m = elim (Bool-cases (get_ref_ptr i m.sptrs == 0)) [
  | inl e ↦ rw (e)
  | inr e ↦ rw (e)
]

pub increase-refcount :
    (a i : ℕ) (m : Memory)
    → m.refcount a + 1 < 2 ^ 64
    → (ref_count_increase i m).refcount a ≡ m.refcount a + hit a (get_ref_ptr i m.sptrs)
unfolding ref_count_increase increase hit
increase-refcount a i m h = ground arith

pub decrease-sptrs : (i : ℕ) (m : Memory) → (ref_count_decrease i m).sptrs ≡ set_ref_ptr i 0 m.sptrs
unfolding ref_count_decrease decrease point
decrease-sptrs i m = elim (Bool-cases (get_ref_ptr i m.sptrs == 0)) [
  | inl e ↦ rw (e)
  | inr e ↦ rw (e)
]

pub decrease-refcount :
    (a i : ℕ) (m : Memory)
    → m.refcount a < 2 ^ 64
    → hit a (get_ref_ptr i m.sptrs) ≤ m.refcount a
    → (ref_count_decrease i m).refcount a + hit a (get_ref_ptr i m.sptrs) ≡ m.refcount a
unfolding ref_count_decrease decrease point hit
decrease-refcount a i m h k = ground arith

pub decrease-deleted :
    (a i : ℕ) (m : Memory)
    → times a (ref_count_decrease i m).deleted
      ≡ times a m.deleted + (if m.refcount a == 1 then hit a (get_ref_ptr i m.sptrs) else 0)
unfolding ref_count_decrease decrease point hit times
decrease-deleted a i m = ground arith
