-- ===== src/Lockfree/Stack/Threads/Waste.antt =====
-- The delayed nodes of the sanitizer.
use my_practise.Base.{
  ◌∙◌, ℕ, ◌≡◌, refl, ap, subst, Bool, true, false, Option, none, some, List, [], ◌∷◌, ◌⊎◌, inl, inr,
  ◌==◌, ==→ne, if◌then◌else◌, Bool-cases, arith,
}
use my_practise.Lockfree.Calls.{if_both}
use my_practise.Lockfree.Sanitizer
use my_practise.Lockfree.Sanitizer.{Sanitizer, HazardPointer, any_accessed}
use my_practise.Lockfree.Sanitizer.Reclaim.{kept_of, release_lem}
use my_practise.Lockfree.Stack.Threads.{Listed}

pub access-list :
    (hp : Option ℕ) (node : ℕ) (s : Sanitizer)
    → (Sanitizer.access hp node s).1.backward_deleting_list ≡ s.backward_deleting_list
unfolding Sanitizer.access
access-list none node s = refl
access-list (some i) node s = ground arith

pub reset-list :
    (hp : Option ℕ) (s : Sanitizer)
    → (Sanitizer.reset hp s).1.backward_deleting_list ≡ s.backward_deleting_list
unfolding Sanitizer.reset
reset-list none s = refl
reset-list (some i) s = refl

pub kept_of-Listed :
    (hps : List HazardPointer) (b : ℕ) (nodes kept : List ℕ)
    → Listed b (kept_of hps nodes kept)
    → Listed b nodes ⊎ Listed b kept
unfolding kept_of
kept_of-Listed hps b [] kept h = inr h
kept_of-Listed hps b (n ∷ nodes) kept h =
    elim (kept_of-Listed hps b nodes (if any_accessed n hps then n ∷ kept else kept) h) [
      | inl j ↦ inl (inr j)
      | inr j ↦
          if_both (λ k. Listed b k → Listed b (n ∷ nodes) ⊎ Listed b kept) (any_accessed n hps)
            (n ∷ kept) kept (λ e i. elim i [ inl p ↦ inl (inl p) | inr z ↦ inr z ]) (λ e i. inr i) j
    ]

null_release :
    (node : ℕ) (s : Sanitizer)
    → (node == 0) ≡ true
    → (Sanitizer.release node s).1.backward_deleting_list ≡ s.backward_deleting_list
unfolding Sanitizer.release
null_release node s z = rw z refl

background_release :
    (node : ℕ) (s : Sanitizer)
    → (node == 0) ≡ false
    → s.is_back_sanitizer ≡ true
    → (Sanitizer.release node s).1 ≡ Sanitizer.delete node s
unfolding Sanitizer.release
background_release node s z k =
    let s' = Sanitizer.delete node s in
    let looped = Sanitizer.back_loop_delete s' in
    if_both (λ (r : Bool × Sanitizer). r.1 ≡ s') (node == 0) (false, s)
      (true, if s.is_back_sanitizer then s' else looped) (λ e. cc (e, z))
      (λ e. if_both (λ x. x ≡ s') s.is_back_sanitizer s' looped (λ f. refl) (λ f. cc (f, k)))

delete-Listed :
    (b node : ℕ) (s : Sanitizer)
    → Listed b (Sanitizer.delete node s).backward_deleting_list
    → (b ≡ node) ⊎ Listed b s.backward_deleting_list
unfolding Sanitizer.delete Sanitizer.delay_delete Sanitizer.immediate_delete
delete-Listed b node s =
    if_both
      (λ (x : Sanitizer).
        Listed b x.backward_deleting_list → (b ≡ node) ⊎ Listed b s.backward_deleting_list)
      (any_accessed node s.hps) (Sanitizer.delay_delete node s) (Sanitizer.immediate_delete node s)
      (λ e j. j) (λ e j. inr j)

-- Behind a release only the released node and those delayed before are delayed.
pub release-Listed :
    (b node : ℕ) (s : Sanitizer)
    → Listed b (Sanitizer.release node s).1.backward_deleting_list
    → (b ≡ node) ⊎ Listed b s.backward_deleting_list
release-Listed b node s h = elim (Bool-cases (node == 0)) [
  | inl z ↦ inr (subst (Listed b) (null_release node s z) h)
  | inr z ↦ elim (Bool-cases s.is_back_sanitizer) [
    | inl k ↦ delete-Listed b node s (
        subst (λ (x : Sanitizer). Listed b x.backward_deleting_list) (background_release node s z k)
          h)
    | inr k ↦
        let e : (Sanitizer.release node s).1.backward_deleting_list
            ≡ kept_of s.hps (node ∷ s.backward_deleting_list) [] =
          ap (λ (x : Sanitizer). x.backward_deleting_list) (release_lem node s (==→ne node 0 z))
          ∙ rw k refl in
        elim (kept_of-Listed s.hps b (node ∷ s.backward_deleting_list) [] (subst (Listed b) e h)) [
          | inl i ↦ i
          | inr i ↦ absurd i
        ]
  ]
]
