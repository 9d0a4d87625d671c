-- ===== src/Lockfree/Sanitizer/Slots.antt =====
-- What the two slots of a thread's hazard pointer protect.
use my_practise.Base.{ℕ, zero, suc, ◌<◌, ◌≡◌, ◌≢◌, true, false, List, [], ◌∷◌, some, length, arith}
use my_practise.Lockfree.Sanitizer.{
  HazardPointer, Sanitizer, store, is_accessed, modify_hp, any_accessed, access,
}

-- The next slot to write is one of the two.
abbrev pub Wellformed : List HazardPointer → Type 0
Wellformed [] = Unit
Wellformed (h ∷ hs) = (h.next_available_cache_pos < 2) × Wellformed hs

module _ (h : HazardPointer) (p q r : ℕ) (pos : h.next_available_cache_pos < 2) where
  is_accessed-store_two :
      (is_accessed p (store q (store p h)) ≡ true) × (is_accessed q (store q (store p h)) ≡ true)
  unfolding store is_accessed
  is_accessed-store_two = ground arith

  is_accessed-store_three : p ≢ q → p ≢ r → is_accessed p (store r (store q (store p h))) ≡ false
  unfolding store is_accessed
  is_accessed-store_three hq hr = ground arith

any_accessed-modify :
    (node i : ℕ) (f g : HazardPointer → HazardPointer) (hps : List HazardPointer)
    → i < length hps
    → Wellformed hps
    → ((h : HazardPointer) → h.next_available_cache_pos < 2 → is_accessed node (g (f h)) ≡ true)
    → any_accessed node (modify_hp g i (modify_hp f i hps)) ≡ true
unfolding any_accessed modify_hp
any_accessed-modify node i f g [] lt w k = absurd (omega arith)
any_accessed-modify node zero f g (h ∷ hs) lt w k = rw (k h w.0)
any_accessed-modify node (suc i) f g (h ∷ hs) lt w k =
    ground (arith, any_accessed-modify node i f g hs (omega arith) w.1 k)

-- After a registered thread has accessed two nodes, both are protected.
pub access-protects :
    (i p q : ℕ) (s : Sanitizer)
    → i < length s.hps
    → Wellformed s.hps
    → p ≢ 0
    → q ≢ 0
    → let t = (access (some i) q (access (some i) p s).1).1 in
      (any_accessed p t.hps ≡ true) × (any_accessed q t.hps ≡ true)
unfolding access
access-protects i p q s lt w hp hq = ground (
  arith,
  any_accessed-modify p i (store p) (store q) s.hps lt w
      (λ h pos. (is_accessed-store_two h p q q pos).0),
  any_accessed-modify q i (store p) (store q) s.hps lt w
      (λ h pos. (is_accessed-store_two h p q q pos).1),
)
