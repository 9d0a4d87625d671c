-- ===== src/Refbase/Ownership.antt =====
-- What the operations on `sptr`s promise together.
use my_practise.Base.{
  zero, suc, refl, List, [], ◌∷◌, ℕ, ◌+◌, ◌^◌, ◌<◌, ◌≡◌, ◌≢◌, sym, ap, subst, ◌∙◌, inl, inr, ◌==◌,
  length, Bool-cases, arith,
}
use my_practise.Refbase.{
  Memory, Op, run, get_ref_ptr, set_ref_ptr, point, ref_count_increase, ref_count_decrease, release,
  assign_raw, assign_copy, assign_move, assign_implicit,
}
use my_practise.Refbase.Counting.{hit, holders, length-set, get-set, get-set_ne, get-holders_pair}
use my_practise.Refbase.Effects.{times, hit-le, hit-times, decrease-sptrs}
use my_practise.Refbase.Lifetime.{Sound, LastGone, decrease-effect, assigned}
use my_practise.Refbase.Operations.{
  default-effect, construct-effect, alive, released, release-effect, move_construct-effect,
  assign_raw-effect, reassign-effect,
}

-- The `sptr`s that an operation names exist, and a raw pointer is not to a deleted object, nor is it
-- assigned to the `sptr` that has it; the implicit copy assignment is between `sptr`s of one pointer.
abbrev pub Legal : Op → Memory → Type 0
Legal Op.make_default m = Unit
Legal (Op.make_raw p) m = times p m.deleted ≡ 0
Legal (Op.make_copy j) m = j < length m.sptrs
Legal (Op.make_move j) m = j < length m.sptrs
Legal (Op.destroy i) m = i < length m.sptrs
Legal (Op.let_go i) m = i < length m.sptrs
Legal (Op.set_raw i p) m =
    (i < length m.sptrs) × (times p m.deleted ≡ 0) × (p ≢ get_ref_ptr i m.sptrs)
Legal (Op.set_copy i j) m = (i < length m.sptrs) × (j < length m.sptrs)
Legal (Op.set_move i j) m = (i < length m.sptrs) × (j < length m.sptrs)
Legal (Op.set_implicit i j) m =
    (i < length m.sptrs) × (get_ref_ptr i m.sptrs ≡ get_ref_ptr j m.sptrs)

set-get : (i : ℕ) (ps : List ℕ) → set_ref_ptr i (get_ref_ptr i ps) ps ≡ ps
unfolding set_ref_ptr get_ref_ptr
set-get i [] = refl
set-get zero (p ∷ ps) = refl
set-get (suc i) (p ∷ ps) = ap (λ r. p ∷ r) (set-get i ps)

assign_implicit-same :
    (i j : ℕ) (m : Memory)
    → get_ref_ptr i m.sptrs ≡ get_ref_ptr j m.sptrs
    → assign_implicit i j m ≡ m
unfolding assign_implicit
assign_implicit-same i j m e =
    ap (λ p. record m { sptrs = set_ref_ptr i p m.sptrs }) (sym e)
    ∙ ap (λ r. record m { sptrs = r }) (set-get i m.sptrs)

-- The other pointers do not change when one is cleared.
other :
    (i j : ℕ) (m : Memory)
    → i ≢ j
    → get_ref_ptr j (ref_count_decrease i m).sptrs ≡ get_ref_ptr j m.sptrs
other i j m ne = ap (get_ref_ptr j) (decrease-sptrs i m) ∙ get-set_ne i j 0 m.sptrs ne

assign_copy-effect :
    (a i j : ℕ) (m : Memory)
    → i < length m.sptrs
    → length m.sptrs + 1 < 2 ^ 64
    → Sound a m
    → Sound a (assign_copy i j m) × LastGone a m (assign_copy i j m)
unfolding assign_copy
assign_copy-effect a i j m h n s = elim (Bool-cases (i == j)) [
  | inl e ↦ rw (e) (s, ground arith)
  | inr e ↦
      let ne : i ≢ j = ground (arith, e) in
      rw (e) (
        subst
          (λ p.
            Sound a (ref_count_increase i (point i p (ref_count_decrease i m)))
            × LastGone a m (ref_count_increase i (point i p (ref_count_decrease i m))))
          (sym (other i j m ne)) (reassign-effect a i j m h n ne s))
]

-- A move from another `sptr`.
move-effect :
    (a i j : ℕ) (m : Memory)
    → i < length m.sptrs
    → j < length m.sptrs
    → length m.sptrs + 1 < 2 ^ 64
    → i ≢ j
    → Sound a m
    → let m' =
        (release j
          (ref_count_increase i (point i (get_ref_ptr j m.sptrs) (ref_count_decrease i m)))).1 in
      Sound a m' × LastGone a m m'
move-effect a i j m h k n ne s =
    let p = get_ref_ptr j m.sptrs in
    let m1 = ref_count_increase i (point i p (ref_count_decrease i m)) in
    let d = assigned a i p m h n s in
    let e = reassign-effect a i j m h n ne s in
    let len : length m1.sptrs ≡ length m.sptrs =
      ap length d.0 ∙ length-set i p (set_ref_ptr i 0 m.sptrs) ∙ length-set i 0 m.sptrs in
    let own : get_ref_ptr j m1.sptrs ≡ p =
      ap (get_ref_ptr j) d.0
      ∙ get-set_ne i j p (set_ref_ptr i 0 m.sptrs) ne
      ∙ get-set_ne i j 0 m.sptrs ne in
    let r = released a j m1 (ground (arith, k, len)) (ground (arith, n, len)) e.0 in
    let own' = ap (hit a) own in
    let pair = get-holders_pair a i j m.sptrs ne in
    let o = hit-le a (get_ref_ptr i m.sptrs) in
    let o' = hit-le a p in
    (
      (r.1, ground (arith, r.0, r.2, own', d.1, d.3, pair, o, o', s.1)),
      ground (arith, r.0, r.2, own', d.1, d.3, pair, o, o'),
    )

assign_move-effect :
    (a i j : ℕ) (m : Memory)
    → i < length m.sptrs
    → j < length m.sptrs
    → length m.sptrs + 1 < 2 ^ 64
    → Sound a m
    → Sound a (assign_move i j m) × LastGone a m (assign_move i j m)
unfolding assign_move
assign_move-effect a i j m h k n s = elim (Bool-cases (i == j)) [
  | inl e ↦ rw (e) (s, ground arith)
  | inr e ↦
      let ne : i ≢ j = ground (arith, e) in
      rw (e) (
        subst
          (λ p.
            let m' = (release j (ref_count_increase i (point i p (ref_count_decrease i m)))).1 in
            Sound a m' × LastGone a m m')
          (sym (other i j m ne)) (move-effect a i j m h k n ne s))
]

run-effect :
    (a : ℕ) (op : Op) (m : Memory)
    → Legal op m
    → length m.sptrs + 2 < 2 ^ 64
    → Sound a m
    → Sound a (run op m) × LastGone a m (run op m)
unfolding run
run-effect a Op.make_default m l n s = default-effect a m s
run-effect a (Op.make_raw p) m l n s =
    construct-effect a p m (omega arith) (hit-times a p m.deleted l) s
run-effect a (Op.make_copy j) m l n s =
    construct-effect a (get_ref_ptr j m.sptrs) m (omega arith) (alive a j m s) s
run-effect a (Op.make_move j) m l n s = move_construct-effect a j m l n s
run-effect a (Op.destroy i) m l n s = decrease-effect a i m l (omega arith) s
run-effect a (Op.let_go i) m l n s = release-effect a i m l (omega arith) s
run-effect a (Op.set_raw i p) m l n s = assign_raw-effect a i p m l.0 (omega arith) l.1 l.2 s
run-effect a (Op.set_copy i j) m l n s = assign_copy-effect a i j m l.0 (omega arith) s
run-effect a (Op.set_move i j) m l n s = assign_move-effect a i j m l.0 l.1 (omega arith) s
run-effect a (Op.set_implicit i j) m l n s =
    subst (λ m'. Sound a m' × LastGone a m m') (sym (assign_implicit-same i j m l.1))
      (s, ground arith)

-- Every operation keeps the count of an object equal to the number of `sptr`s that hold it, and leaves
-- no `sptr` on a deleted object, where the `sptr`s that it names exist, a raw pointer is neither to a
-- deleted object nor the one that its target has already, and the implicit copy assignment, which
-- counts nothing, is between `sptr`s of the same pointer.
pub run-Sound :
    (a : ℕ) (op : Op) (m : Memory)
    → Legal op m
    → length m.sptrs + 2 < 2 ^ 64
    → Sound a m
    → Sound a (run op m)
run-Sound a op m l n s = (run-effect a op m l n s).0

-- Under the same conditions an operation deletes an object once where it takes its last holder away,
-- and else not.
pub run-LastGone :
    (a : ℕ) (op : Op) (m : Memory)
    → Legal op m
    → length m.sptrs + 2 < 2 ^ 64
    → Sound a m
    → LastGone a m (run op m)
run-LastGone a op m l n s = (run-effect a op m l n s).1

-- `release` returns null, whatever the `sptr` held.
pub release-null : (i : ℕ) (m : Memory) → i < length m.sptrs → (release i m).0 ≡ 0
unfolding release
release-null i m h = ap (get_ref_ptr i) (decrease-sptrs i m) ∙ get-set i 0 m.sptrs h

hit_self : (a : ℕ) → a ≢ 0 → hit a a ≡ 1
unfolding hit
hit_self a h = ground (arith, h)

-- Assigning to the only holder of an object the pointer that it has already deletes the object and
-- leaves the `sptr` on it.
pub assign_raw_self :
    (a i : ℕ) (m : Memory)
    → i < length m.sptrs
    → length m.sptrs + 1 < 2 ^ 64
    → Sound a m
    → a ≢ 0
    → get_ref_ptr i m.sptrs ≡ a
    → holders a m.sptrs ≡ 1
    → (times a (assign_raw i a m).deleted ≡ 1) × (holders a (assign_raw i a m).sptrs ≡ 1)
unfolding assign_raw
assign_raw_self a i m h n s nz e one =
    let d = assigned a i a m h n s in
    let same = ap (hit a) e in
    let hit1 = hit_self a nz in
    (ground (arith, d.3, same, hit1, one, s.1), ground (arith, d.1, same, hit1, one))
