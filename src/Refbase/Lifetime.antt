-- ===== src/Refbase/Lifetime.antt =====
-- What the steps of the operations on an `sptr` do to the holders, the count and the deletions of one
-- object.
use my_practise.Base.{
  ℕ, ◌+◌, ◌^◌, ◌<◌, ◌≡◌, ◌⊎◌, sym, ap, subst, ◌∙◌, ◌==◌, if◌then◌else◌, ◌&&◌, ltb, length, arith,
}
use my_practise.Refbase.{
  Memory, get_ref_ptr, set_ref_ptr, point, ref_count_increase, ref_count_decrease,
}
use my_practise.Refbase.Counting.{
  hit, holders, holders-length, holders-set, get-set, length-set, get-holders,
}
use my_practise.Refbase.Effects.{
  times, hit-le, hit-null, increase-sptrs, increase-deleted, increase-refcount, decrease-sptrs,
  decrease-refcount, decrease-deleted,
}

-- The count of the object `a` is the number of its holders, and it has none once it was deleted.
abbrev pub Sound : ℕ → Memory → Type 0
Sound a m = (m.refcount a ≡ holders a m.sptrs) × ((times a m.deleted ≡ 0) ⊎ (holders a m.sptrs ≡ 0))

-- Between `m` and `m'`, `a` was deleted once if its last holder went, and else not.
abbrev pub LastGone : ℕ → Memory → Memory → Type 0
LastGone a m m' =
    times a m'.deleted
    ≡ times a m.deleted + (if ltb 0 (holders a m.sptrs) && holders a m'.sptrs == 0 then 1 else 0)

pub bounded :
    (a : ℕ) (m : Memory) → Sound a m → length m.sptrs + 1 < 2 ^ 64 → m.refcount a + 1 < 2 ^ 64
bounded a m s n = ground (arith, s.0, holders-length a m.sptrs, n)

-- What `RefCountDecrease` does to the holders, the count and the deletions of `a`.
pub decreased :
    (a i : ℕ) (m : Memory)
    → i < length m.sptrs
    → length m.sptrs + 1 < 2 ^ 64
    → Sound a m
    → let m' = ref_count_decrease i m in
      let p = get_ref_ptr i m.sptrs in
      (holders a m'.sptrs + hit a p ≡ holders a m.sptrs)
      × (m'.refcount a ≡ holders a m'.sptrs)
      × (times a m'.deleted ≡ times a m.deleted + (if holders a m.sptrs == 1 then hit a p else 0))
decreased a i m h n s =
    let set = holders-set a i 0 m.sptrs h in
    let held : holders a (ref_count_decrease i m).sptrs + hit a (get_ref_ptr i m.sptrs)
        ≡ holders a m.sptrs =
      rw (decrease-sptrs i m) (ground (arith, set, hit-null a)) in
    let small = bounded a m s n in
    let holds = get-holders a i m.sptrs in
    let left = decrease-refcount a i m (ground (arith, small)) (ground (arith, holds, s.0)) in
    (held, ground (arith, left, held, s.0), rw (sym s.0) (decrease-deleted a i m))

pub decrease-effect :
    (a i : ℕ) (m : Memory)
    → i < length m.sptrs
    → length m.sptrs + 1 < 2 ^ 64
    → Sound a m
    → Sound a (ref_count_decrease i m) × LastGone a m (ref_count_decrease i m)
decrease-effect a i m h n s =
    let d = decreased a i m h n s in
    let one = hit-le a (get_ref_ptr i m.sptrs) in
    ((d.1, ground (arith, d.0, d.2, one, s.1)), ground (arith, d.0, d.2, one))

-- What it does to point an empty `sptr` to `p`.
pub filled :
    (a i p : ℕ) (m : Memory)
    → i < length m.sptrs
    → length m.sptrs + 1 < 2 ^ 64
    → get_ref_ptr i m.sptrs ≡ 0
    → m.refcount a ≡ holders a m.sptrs
    → let m' = ref_count_increase i (point i p m) in
      (m'.sptrs ≡ set_ref_ptr i p m.sptrs)
      × (holders a m'.sptrs ≡ holders a m.sptrs + hit a p)
      × (m'.refcount a ≡ holders a m'.sptrs)
      × (m'.deleted ≡ m.deleted)
unfolding point
filled a i p m h n e c =
    let m2 : Memory = record m { sptrs = set_ref_ptr i p m.sptrs } in
    let set : holders a m2.sptrs + hit a 0 ≡ holders a m.sptrs + hit a p =
      subst (λ q. holders a m2.sptrs + hit a q ≡ holders a m.sptrs + hit a p) e
        (holders-set a i p m.sptrs h) in
    let added : holders a m2.sptrs ≡ holders a m.sptrs + hit a p =
      ground (arith, set, hit-null a) in
    let small : m.refcount a + 1 < 2 ^ 64 = ground (arith, c, n, holders-length a m.sptrs) in
    let counted : (ref_count_increase i m2).refcount a ≡ m.refcount a + hit a p =
      subst (λ q. (ref_count_increase i m2).refcount a ≡ m.refcount a + hit a q)
        (get-set i p m.sptrs h) (increase-refcount a i m2 small) in
    let same = ap (holders a) (increase-sptrs i m2) in
    (
      increase-sptrs i m2,
      same ∙ added,
      ground (arith, counted, c, same, added),
      increase-deleted i m2,
    )

-- What the assignment templates do to the holders, the count and the deletions of `a`.
pub assigned :
    (a i p : ℕ) (m : Memory)
    → i < length m.sptrs
    → length m.sptrs + 1 < 2 ^ 64
    → Sound a m
    → let m' = ref_count_increase i (point i p (ref_count_decrease i m)) in
      let q = get_ref_ptr i m.sptrs in
      (m'.sptrs ≡ set_ref_ptr i p (set_ref_ptr i 0 m.sptrs))
      × (holders a m'.sptrs + hit a q ≡ holders a m.sptrs + hit a p)
      × (m'.refcount a ≡ holders a m'.sptrs)
      × (times a m'.deleted ≡ times a m.deleted + (if holders a m.sptrs == 1 then hit a q else 0))
assigned a i p m h n s =
    let d = decreased a i m h n s in
    let m1 = ref_count_decrease i m in
    let len : length m1.sptrs ≡ length m.sptrs =
      ap length (decrease-sptrs i m) ∙ length-set i 0 m.sptrs in
    let blank : get_ref_ptr i m1.sptrs ≡ 0 =
      ap (get_ref_ptr i) (decrease-sptrs i m) ∙ get-set i 0 m.sptrs h in
    let f = filled a i p m1 (ground (arith, h, len)) (ground (arith, n, len)) blank d.1 in
    (
      f.0 ∙ ap (set_ref_ptr i p) (decrease-sptrs i m),
      ground (arith, f.1, d.0),
      f.2,
      ap (times a) f.3 ∙ d.2,
    )
