-- ===== src/Refbase/Operations.antt =====
-- Each operation on an `sptr`: that it keeps the count of an object right and deletes the object
-- exactly where it takes the last holder away.
use my_practise.Base.{
  ℕ, ◌+◌, ◌^◌, ◌<◌, ◌≤◌, ◌≡◌, ◌≢◌, ◌⊎◌, sym, ap, subst, ◌∙◌, [], ◌∷◌, ◌++◌, ◌==◌, if◌then◌else◌,
  length, arith, length-append,
}
use my_practise.Refbase.{
  Memory, get_ref_ptr, set_ref_ptr, point, ref_count_increase, ref_count_decrease, release,
  default_construct, construct_from, move_construct, assign_raw,
}
use my_practise.Refbase.Counting.{
  hit, holders, holders-length, holders-append, get-append, get-append_lt, set-set, get-holders,
  get-holders_pair,
}
use my_practise.Refbase.Effects.{
  times, hit-le, hit-null, hit-times, increase-sptrs, increase-deleted, increase-refcount,
  decrease-sptrs,
}
use my_practise.Refbase.Lifetime.{Sound, LastGone, decreased, assigned}

hit-same : (a p q : ℕ) → p ≢ q → hit a p + hit a q ≤ 1
unfolding hit
hit-same a p q h = ground (arith, h)

pub default-effect :
    (a : ℕ) (m : Memory)
    → Sound a m
    → Sound a (default_construct m) × LastGone a m (default_construct m)
unfolding default_construct
default-effect a m s =
    let h = holders-append a 0 m.sptrs in
    (
      (ground (arith, h, hit-null a, s.0), ground (arith, h, hit-null a, s.1)),
      ground (arith, h, hit-null a),
    )

constructed :
    (a p : ℕ) (m : Memory)
    → length m.sptrs + 1 < 2 ^ 64
    → Sound a m
    → let m' = construct_from p m in
      (m'.sptrs ≡ m.sptrs ++ p ∷ [])
      × (holders a m'.sptrs ≡ holders a m.sptrs + hit a p)
      × (m'.refcount a ≡ holders a m'.sptrs)
      × (m'.deleted ≡ m.deleted)
unfolding construct_from
constructed a p m n s =
    let m1 : Memory = record m { sptrs = m.sptrs ++ p ∷ [] } in
    let i = length m.sptrs in
    let same = ap (holders a) (increase-sptrs i m1) ∙ holders-append a p m.sptrs in
    let small : m.refcount a + 1 < 2 ^ 64 = ground (arith, s.0, n, holders-length a m.sptrs) in
    let counted : (ref_count_increase i m1).refcount a ≡ m.refcount a + hit a p =
      subst (λ q. (ref_count_increase i m1).refcount a ≡ m.refcount a + hit a q)
        (get-append p m.sptrs) (increase-refcount a i m1 small) in
    (increase-sptrs i m1, same, ground (arith, counted, same, s.0), increase-deleted i m1)

pub construct-effect :
    (a p : ℕ) (m : Memory)
    → length m.sptrs + 1 < 2 ^ 64
    → (hit a p ≡ 0) ⊎ (times a m.deleted ≡ 0)
    → Sound a m
    → Sound a (construct_from p m) × LastGone a m (construct_from p m)
construct-effect a p m n alive s =
    let c = constructed a p m n s in
    let t = ap (times a) c.3 in ((c.2, ground (arith, c.1, t, s.1, alive)), ground (arith, c.1, t))

-- A `sptr`'s own pointer is not to a deleted object.
pub alive :
    (a j : ℕ) (m : Memory)
    → Sound a m
    → (hit a (get_ref_ptr j m.sptrs) ≡ 0) ⊎ (times a m.deleted ≡ 0)
alive a j m s = ground (arith, get-holders a j m.sptrs, s.1)

-- A `release` after a step: `m` is the memory before the step, and `p` what `j` has behind it.
pub released :
    (a j : ℕ) (m : Memory)
    → j < length m.sptrs
    → length m.sptrs + 1 < 2 ^ 64
    → Sound a m
    → let m' = (release j m).1 in
      let p = get_ref_ptr j m.sptrs in
      (holders a m'.sptrs + hit a p ≡ holders a m.sptrs)
      × (m'.refcount a ≡ holders a m'.sptrs)
      × (times a m'.deleted ≡ times a m.deleted + (if holders a m.sptrs == 1 then hit a p else 0))
unfolding release point
released a j m h n s =
    let d = decreased a j m h n s in
    let same : set_ref_ptr j 0 (ref_count_decrease j m).sptrs ≡ (ref_count_decrease j m).sptrs =
      ap (set_ref_ptr j 0) (decrease-sptrs j m)
      ∙ set-set j 0 0 m.sptrs
      ∙ sym (decrease-sptrs j m) in
    (
      ap (λ r. holders a r + hit a (get_ref_ptr j m.sptrs)) same ∙ d.0,
      d.1 ∙ sym (ap (holders a) same),
      d.2,
    )

pub release-effect :
    (a j : ℕ) (m : Memory)
    → j < length m.sptrs
    → length m.sptrs + 1 < 2 ^ 64
    → Sound a m
    → Sound a (release j m).1 × LastGone a m (release j m).1
release-effect a j m h n s =
    let d = released a j m h n s in
    let one = hit-le a (get_ref_ptr j m.sptrs) in
    ((d.1, ground (arith, d.0, d.2, one, s.1)), ground (arith, d.0, d.2, one))

pub move_construct-effect :
    (a j : ℕ) (m : Memory)
    → j < length m.sptrs
    → length m.sptrs + 2 < 2 ^ 64
    → Sound a m
    → Sound a (move_construct j m) × LastGone a m (move_construct j m)
unfolding move_construct
move_construct-effect a j m h n s =
    let p = get_ref_ptr j m.sptrs in
    let m1 = construct_from p m in
    let c = constructed a p m (omega arith) s in
    let e = construct-effect a p m (omega arith) (alive a j m s) s in
    let len : length m1.sptrs ≡ length m.sptrs + 1 =
      ap length c.0 ∙ length-append m.sptrs (p ∷ []) in
    let own : get_ref_ptr j m1.sptrs ≡ p = ap (get_ref_ptr j) c.0 ∙ get-append_lt j p m.sptrs h in
    let d = released a j m1 (ground (arith, h, len)) (ground (arith, n, len)) e.0 in
    let hold = get-holders a j m.sptrs in
    let one = hit-le a p in
    let t = ap (times a) c.3 in
    let own' = ap (hit a) own in
    (
      (d.1, ground (arith, d.0, d.2, own', c.1, t, one, hold, s.1)),
      ground (arith, d.0, d.2, own', c.1, t, one, hold),
    )

pub assign_raw-effect :
    (a i p : ℕ) (m : Memory)
    → i < length m.sptrs
    → length m.sptrs + 1 < 2 ^ 64
    → times p m.deleted ≡ 0
    → p ≢ get_ref_ptr i m.sptrs
    → Sound a m
    → Sound a (assign_raw i p m) × LastGone a m (assign_raw i p m)
unfolding assign_raw
assign_raw-effect a i p m h n fresh ne s =
    let d = assigned a i p m h n s in
    let apart = hit-same a p (get_ref_ptr i m.sptrs) ne in
    let live = hit-times a p m.deleted fresh in
    let hold = get-holders a i m.sptrs in
    ((d.2, ground (arith, d.1, d.3, apart, live, hold, s.1)), ground (arith, d.1, d.3, apart, hold))

-- A pointer assigned from another `sptr`.
pub reassign-effect :
    (a i j : ℕ) (m : Memory)
    → i < length m.sptrs
    → length m.sptrs + 1 < 2 ^ 64
    → i ≢ j
    → Sound a m
    → let m' = ref_count_increase i (point i (get_ref_ptr j m.sptrs) (ref_count_decrease i m)) in
      Sound a m' × LastGone a m m'
reassign-effect a i j m h n ne s =
    let d = assigned a i (get_ref_ptr j m.sptrs) m h n s in
    let pair = get-holders_pair a i j m.sptrs ne in
    let o = hit-le a (get_ref_ptr i m.sptrs) in
    let o' = hit-le a (get_ref_ptr j m.sptrs) in
    ((d.2, ground (arith, d.1, d.3, pair, o, o', s.1)), ground (arith, d.1, d.3, pair, o, o'))
