-- ===== src/Lockfree/Sanitizer/Tests.antt =====
-- The theorems on the sanitizer at concrete inputs.
use my_practise.Base.{ℕ, ◌≡◌, refl, true, false, List, [], ◌∷◌, ◌++◌, some, arith}
use my_practise.Lockfree.Sanitizer.{
  HazardPointer, Sanitizer, no_hazard, access, any_accessed, release,
}
use my_practise.Lockfree.Sanitizer.Reclaim.{count, kept_of, unread, release_lem, release-keeps_read}
use my_practise.Lockfree.Sanitizer.Slots.{access-protects}
use my_practise.Lockfree.Sanitizer.Register.{alternate}

abbrev owner : ℕ → HazardPointer
owner id = record no_hazard { id = id }

-- Thread 1 is reading node 40, and nodes 40 and 41 wait to be freed.
abbrev busy : Sanitizer
busy = record {
  hps = record (owner 1) { slot0 = 40; next_available_cache_pos = 1 } ∷ no_hazard ∷ [];
  backward_deleting_list = 40 ∷ 41 ∷ [];
  is_back_sanitizer = false;
  freed = 39 ∷ [];
}

release_lem_example : (release 42 busy).1 ≡ record busy {
  backward_deleting_list = kept_of busy.hps (42 ∷ 40 ∷ 41 ∷ []) [];
  freed = (39 ∷ []) ++ unread busy.hps (42 ∷ 40 ∷ 41 ∷ []);
}
release_lem_example = release_lem 42 busy (omega arith)

release-keeps_read_example :
    count 40 (release 40 (record busy { is_back_sanitizer = true })).1.freed ≡ count 40 (39 ∷ [])
unfolding any_accessed
release-keeps_read_example =
    release-keeps_read 40 40 (record busy { is_back_sanitizer = true }) (omega arith) refl

access-protects_example :
    let t = (access (some 0) 8 (access (some 0) 7 busy).1).1 in
    (any_accessed 7 t.hps ≡ true) × (any_accessed 8 t.hps ≡ true)
access-protects_example =
    access-protects 0 7 8 busy (omega arith) (omega arith) (omega arith) (omega arith)

abbrev two_pairs : Sanitizer
two_pairs = record busy { hps = alternate (owner 1 ∷ []) ++ no_hazard ∷ no_hazard ∷ [] }

-- Sixteen pointers, eight threads: the ninth is refused.
abbrev eight : List HazardPointer
eight = owner 1 ∷ owner 2 ∷ owner 3 ∷ owner 4 ∷ owner 5 ∷ owner 6 ∷ owner 7 ∷ owner 8 ∷ []

abbrev crowded : Sanitizer
crowded = record busy { hps = alternate eight }
