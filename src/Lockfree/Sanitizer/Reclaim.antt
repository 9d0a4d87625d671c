-- ===== src/Lockfree/Sanitizer/Reclaim.antt =====
-- Which nodes a release frees and which it keeps.
use my_practise.Base.{
  ℕ, ◌+◌, ◌≡◌, ◌≢◌, refl, ◌∙◌, ap, sym, true, false, inl, inr, List, [], ◌∷◌, ◌++◌, append_assoc,
  append-nil, Bool-cases, ◌==◌, if◌then◌else◌, arith,
}
use my_practise.Lockfree.Sanitizer.{
  HazardPointer, Sanitizer, any_accessed, delete, delete_all, back_loop_delete, release,
  immediate_delete_all, destroy, immediate_delete, delay_delete,
}

-- How often a node stands in a list.
unfoldable pub count : ℕ → List ℕ → ℕ
count node [] = 0
count node (n ∷ nodes) = (if node == n then 1 else 0) + count node nodes

module _ (hps : List HazardPointer) where
  -- The nodes of a list that some thread is reading, in reverse, in front of `kept`.
  unfoldable pub kept_of : List ℕ → List ℕ → List ℕ
  kept_of [] kept = kept
  kept_of (node ∷ nodes) kept = kept_of nodes (if any_accessed node hps then node ∷ kept else kept)

  -- The nodes of a list that no thread is reading.
  unfoldable pub unread : List ℕ → List ℕ
  unread [] = []
  unread (node ∷ nodes) = if any_accessed node hps then unread nodes else node ∷ unread nodes

delete_all-eq :
    (nodes : List ℕ) (s : Sanitizer)
    → delete_all nodes s ≡ record s {
      backward_deleting_list = kept_of s.hps nodes s.backward_deleting_list;
      freed = s.freed ++ unread s.hps nodes;
    }
unfolding delete_all kept_of unread
delete_all-eq [] s = ground (arith, append-nil s.freed)
delete_all-eq (node ∷ nodes) s = elim (Bool-cases (any_accessed node s.hps)) [
  | inl reading ↦ rw (reading, delete) (delete_all-eq nodes (delay_delete node s))
  | inr free ↦
      rw (free, delete)
        (delete_all-eq nodes (immediate_delete node s)
          ∙ ap
              (λ r. record s {
                backward_deleting_list = kept_of s.hps nodes s.backward_deleting_list;
                freed = r;
              })
              (append_assoc s.freed (node ∷ []) (unread s.hps nodes)))
]

-- Releasing a node frees, of the nodes that it looks at, exactly those that no thread is reading, and
-- keeps exactly the others delayed: it looks at the released node alone where a background thread
-- cleans, and at the nodes delayed before too where none does. The hazard pointers are left alone.
pub release_lem :
    (node : ℕ) (s : Sanitizer)
    → node ≢ 0
    → (release node s).1 ≡ record s {
      backward_deleting_list =
          if s.is_back_sanitizer
          then kept_of s.hps (node ∷ []) s.backward_deleting_list
          else kept_of s.hps (node ∷ s.backward_deleting_list) [];
      freed =
          s.freed
          ++ unread s.hps
              (if s.is_back_sanitizer then node ∷ [] else node ∷ s.backward_deleting_list);
    }
unfolding release kept_of unread
release_lem node s h = elim (Bool-cases (any_accessed node s.hps)) [
  | inl reading ↦ ground (
    arith,
    append-nil s.freed,
    delete_all-eq (node ∷ s.backward_deleting_list) (record s { backward_deleting_list = [] }),
  )
  | inr free ↦ ground (
    arith,
    delete_all-eq s.backward_deleting_list
        (record s { backward_deleting_list = []; freed = s.freed ++ node ∷ [] }),
    append_assoc s.freed (node ∷ []) (unread s.hps s.backward_deleting_list),
  )
]

-- A background cleaner pass does the same to the nodes delayed before.
pub back_loop_delete_lem :
    (s : Sanitizer)
    → back_loop_delete s ≡ record s {
      backward_deleting_list = kept_of s.hps s.backward_deleting_list [];
      freed = s.freed ++ unread s.hps s.backward_deleting_list;
    }
unfolding back_loop_delete
back_loop_delete_lem s =
    delete_all-eq s.backward_deleting_list (record s { backward_deleting_list = [] })

-- A node that a thread is reading is not among those that a release frees.
pub not-unread :
    (hps : List HazardPointer) (node : ℕ) (nodes : List ℕ)
    → any_accessed node hps ≡ true
    → count node (unread hps nodes) ≡ 0
unfolding unread count
not-unread hps node [] h = refl
not-unread hps node (n ∷ nodes) h =
    ground (arith, not-unread hps node nodes h, ap (λ k. any_accessed k hps))

count-append : (node : ℕ) (xs ys : List ℕ) → count node (xs ++ ys) ≡ count node xs + count node ys
unfolding count
count-append node [] ys = omega arith
count-append node (x ∷ xs) ys = ground (arith, count-append node xs ys)

immediate_delete_all-eq :
    (nodes : List ℕ) (s : Sanitizer)
    → ((immediate_delete_all nodes s).backward_deleting_list ≡ s.backward_deleting_list)
      × ((immediate_delete_all nodes s).freed ≡ s.freed ++ nodes)
unfolding immediate_delete_all
immediate_delete_all-eq [] s = (refl, sym (append-nil s.freed))
immediate_delete_all-eq (node ∷ nodes) s =
    let ih = immediate_delete_all-eq nodes (immediate_delete node s) in
    (ih.0, ih.1 ∙ append_assoc s.freed (node ∷ []) nodes)

-- The destructor frees every delayed node.
pub destroy_lem :
    (s : Sanitizer)
    → ((destroy s).backward_deleting_list ≡ [])
      × ((destroy s).freed ≡ s.freed ++ s.backward_deleting_list)
unfolding destroy
destroy_lem s =
    immediate_delete_all-eq s.backward_deleting_list
      (record s { backward_deleting_list = []; is_back_sanitizer = false })

-- A release frees no node that a thread is reading, whether the node is the released one or one
-- delayed before, and whether or not a background thread cleans.
pub release-keeps_read :
    (node other : ℕ) (s : Sanitizer)
    → node ≢ 0
    → any_accessed other s.hps ≡ true
    → count other (release node s).1.freed ≡ count other s.freed
release-keeps_read node other s h reading =
    let looked_at = if s.is_back_sanitizer then node ∷ [] else node ∷ s.backward_deleting_list in
    ap (λ r. count other r.freed) (release_lem node s h)
    ∙ omega (
      arith,
      count-append other s.freed (unread s.hps looked_at),
      not-unread s.hps other looked_at reading,
    )
