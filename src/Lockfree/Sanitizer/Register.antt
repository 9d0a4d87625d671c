-- ===== src/Lockfree/Sanitizer/Register.antt =====
-- How many threads find a hazard pointer.
use my_practise.Base.{
  ℕ, ◌+◌, ◌*◌, ◌≡◌, ◌≢◌, refl, List, [], ◌∷◌, ◌++◌, none, some, length, arith, append-nil,
}
use my_practise.Lockfree.Sanitizer.{
  HazardPointer, Sanitizer, no_hazard, register_from, register_thread,
}

-- Hazard pointers in pairs: one that a thread owns, and one that nobody owns.
abbrev pub alternate : List HazardPointer → List HazardPointer
alternate [] = []
alternate (h ∷ hs) = h ∷ no_hazard ∷ alternate hs

-- Every one is owned, and none by the thread `id`.
abbrev pub OwnedByOthers : ℕ → List HazardPointer → Type 0
OwnedByOthers id [] = Unit
OwnedByOthers id (h ∷ hs) = (h.id ≢ 0) × (h.id ≢ id) × OwnedByOthers id hs

length-alternate : (owned : List HazardPointer) → length (alternate owned) ≡ 2 * length owned
length-alternate [] = refl
length-alternate (h ∷ hs) = omega (arith, length-alternate hs)

register_from-skips :
    (id i j : ℕ) (owned rest : List HazardPointer)
    → id ≢ 0
    → OwnedByOthers id owned
    → j ≡ i + 2 * length owned
    → register_from id 0 i (alternate owned ++ rest)
      ≡ ((register_from id 0 j rest).0, alternate owned ++ (register_from id 0 j rest).1)
unfolding register_from
register_from-skips id i j [] rest h w e = let same : i ≡ j = omega arith in rw same
register_from-skips id i j (o ∷ owned) rest h w e =
    ground (arith, register_from-skips id (i + 1 + 1) j owned rest h w.2)

-- A new thread takes the first pointer behind the pairs of the threads before it, and leaves the
-- second one of its own pair unused.
pub register_thread-next :
    (id : ℕ) (owned : List HazardPointer) (free : List HazardPointer) (s : Sanitizer)
    → id ≢ 0
    → OwnedByOthers id owned
    → s.hps ≡ alternate owned ++ no_hazard ∷ no_hazard ∷ free
    → register_thread id s ≡ (
      some (2 * length owned),
      record s { hps = alternate owned ++ record no_hazard { id = id } ∷ no_hazard ∷ free },
    )
unfolding register_thread
register_thread-next id owned free s h w e = rw e (
    ground
      (arith, register_from-skips id 0 (2 * length owned) owned (no_hazard ∷ no_hazard ∷ free) h w))

-- Once threads own one pointer of each pair, a further thread gets none: half of the pointers that
-- the sanitizer has is as many threads as it can serve.
pub register_thread-refused :
    (id : ℕ) (owned : List HazardPointer) (s : Sanitizer)
    → id ≢ 0
    → OwnedByOthers id owned
    → s.hps ≡ alternate owned
    → (length s.hps ≡ 2 * length owned) × (register_thread id s ≡ (none, s))
unfolding register_thread
register_thread-refused id owned s h w e = (
  rw e (length-alternate owned),
  ground (
    arith,
    register_from-skips id 0 (2 * length owned) owned [] h w,
    append-nil (alternate owned),
    e,
  ),
)
