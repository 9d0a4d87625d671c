-- ===== src/Refbase.antt =====
-- refbase/refbase.hpp and refbase/refbase.cpp: `RefBase`, an object that counts its holders, and
-- `sptr`, which holds one. An object is its address, 0 the null pointer; an `sptr` is its index in
-- the list of all those constructed, and one that was destructed holds null.
pub mod Counting
pub mod Effects
pub mod Lifetime
pub mod Operations
pub mod Ownership
mod Tests
use my_practise.Base.{
  ℕ, zero, suc, ◌+◌, ◌-◌, ◌%◌, ◌^◌, Bool, true, false, List, [], ◌∷◌, ◌++◌, ◌==◌, if◌then◌else◌,
  length,
}

-- `deleted` has the objects on which `delete this` was called, the last one first.
pub record Memory : Type 0 where
  pub sptrs : List ℕ
  pub refcount : ℕ → ℕ
  pub deleted : List ℕ

-- `GetRefPtr` of the `sptr` of an index.
unfoldable pub get_ref_ptr : ℕ → List ℕ → ℕ
get_ref_ptr i [] = 0
get_ref_ptr zero (p ∷ ps) = p
get_ref_ptr (suc i) (p ∷ ps) = get_ref_ptr i ps

unfoldable pub set_ref_ptr : ℕ → ℕ → List ℕ → List ℕ
set_ref_ptr i v [] = []
set_ref_ptr zero v (p ∷ ps) = v ∷ ps
set_ref_ptr (suc i) v (p ∷ ps) = p ∷ set_ref_ptr i v ps

-- `RefBase::Increase` and `RefBase::Decrease`
unfoldable pub increase : ℕ → Memory → Memory
increase a m = record m {
  refcount = λ b. if b == a then (m.refcount a + 1) % 2 ^ 64 else m.refcount b;
}

unfoldable pub decrease : ℕ → Memory → Memory
decrease a m = record m {
  refcount = λ b. if b == a then (m.refcount a + 2 ^ 64 - 1) % 2 ^ 64 else m.refcount b;
  deleted = if m.refcount a == 1 then a ∷ m.deleted else m.deleted;
}

-- `object_ptr_ = p`
unfoldable pub point : ℕ → ℕ → Memory → Memory
unfolding set_ref_ptr
point i p m = record m { sptrs = set_ref_ptr i p m.sptrs }

unfoldable pub ref_count_increase : ℕ → Memory → Memory
unfolding get_ref_ptr increase
ref_count_increase i m =
    if get_ref_ptr i m.sptrs == 0 then m else increase (get_ref_ptr i m.sptrs) m

unfoldable pub ref_count_decrease : ℕ → Memory → Memory
unfolding get_ref_ptr decrease point
ref_count_decrease i m =
    point i 0 (if get_ref_ptr i m.sptrs == 0 then m else decrease (get_ref_ptr i m.sptrs) m)

-- `sptr::release`: the pointer that it returns, and the memory.
unfoldable pub release : ℕ → Memory → ℕ × Memory
unfolding ref_count_decrease point get_ref_ptr
release i m = let m' = ref_count_decrease i m in (get_ref_ptr i m'.sptrs, point i 0 m')

-- The constructors; the new `sptr` has the next index.
unfoldable pub default_construct : Memory → Memory
default_construct m = record m { sptrs = m.sptrs ++ 0 ∷ [] }

unfoldable pub construct_from : ℕ → Memory → Memory
unfolding ref_count_increase
construct_from p m = ref_count_increase (length m.sptrs) (record m { sptrs = m.sptrs ++ p ∷ [] })

unfoldable pub copy_construct : ℕ → Memory → Memory
unfolding construct_from get_ref_ptr
copy_construct j m = construct_from (get_ref_ptr j m.sptrs) m

unfoldable pub move_construct : ℕ → Memory → Memory
unfolding construct_from get_ref_ptr release
move_construct j m = (release j (construct_from (get_ref_ptr j m.sptrs) m)).1

-- The destructor.
unfoldable pub destruct : ℕ → Memory → Memory
unfolding ref_count_decrease
destruct i m = ref_count_decrease i m

-- The three assignment templates; `i` is `this`. The one from an `sptr` is for another type.
unfoldable pub assign_raw : ℕ → ℕ → Memory → Memory
unfolding ref_count_decrease point ref_count_increase
assign_raw i p m = ref_count_increase i (point i p (ref_count_decrease i m))

unfoldable pub assign_copy : ℕ → ℕ → Memory → Memory
unfolding ref_count_decrease point ref_count_increase get_ref_ptr
assign_copy i j m =
    if i == j
    then m
    else let m' = ref_count_decrease i m in
      ref_count_increase i (point i (get_ref_ptr j m'.sptrs) m')

unfoldable pub assign_move : ℕ → ℕ → Memory → Memory
unfolding ref_count_decrease point ref_count_increase get_ref_ptr release
assign_move i j m =
    if i == j
    then m
    else let m' = ref_count_decrease i m in
      (release j (ref_count_increase i (point i (get_ref_ptr j m'.sptrs) m'))).1

-- The copy assignment that the compiler declares, since a template is none: an `sptr` assigned from
-- one of the same type takes its pointer, and nothing is counted.
unfoldable pub assign_implicit : ℕ → ℕ → Memory → Memory
unfolding point get_ref_ptr
assign_implicit i j m = point i (get_ref_ptr j m.sptrs) m

-- One operation, as a value.
pub data Op : Type 0 where
  make_default : Op
  make_raw : (p : ℕ) → Op
  make_copy : (j : ℕ) → Op
  make_move : (j : ℕ) → Op
  destroy : (i : ℕ) → Op
  let_go : (i : ℕ) → Op
  set_raw : (i p : ℕ) → Op
  set_copy : (i j : ℕ) → Op
  set_move : (i j : ℕ) → Op
  set_implicit : (i j : ℕ) → Op

unfoldable pub run : Op → Memory → Memory
unfolding default_construct construct_from copy_construct move_construct destruct release assign_raw
    assign_copy assign_move assign_implicit
run Op.make_default m = default_construct m
run (Op.make_raw p) m = construct_from p m
run (Op.make_copy j) m = copy_construct j m
run (Op.make_move j) m = move_construct j m
run (Op.destroy i) m = destruct i m
run (Op.let_go i) m = (release i m).1
run (Op.set_raw i p) m = assign_raw i p m
run (Op.set_copy i j) m = assign_copy i j m
run (Op.set_move i j) m = assign_move i j m
run (Op.set_implicit i j) m = assign_implicit i j m
