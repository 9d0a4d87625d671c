-- ===== src/Lockfree/Stack/Mislink.antt =====
-- What a disturbed `Push` can do: after a failed compare-exchange its loop links the new node to one
-- reading of the head and compares the head with another.
use my_practise.Base.{ℕ, ◌≡◌, ◌≢◌, refl, sym, ◌∙◌, ◌∷◌, eq→==, ne→==}
use my_practise.Lockfree.Stack.{Stack, Push, push_step}
use my_practise.Lockfree.Stack.Chain.{Cells, Chain}

-- What the reload leaves in the new node, and what the second compare-exchange does.
run :
    (expected node : ℕ) (s1 s2 s3 : Stack)
    → s1.head ≢ expected
    → s3.head ≡ s1.head
    → ((push_step (push_step (Push.swap expected node) s1).0 s2).1.next node ≡ s2.head)
      × (push_step (push_step (push_step (Push.swap expected node) s1).0 s2).0 s3
          ≡ (Push.count, record s3 { head = node }))
unfolding push_step
run expected node s1 s2 s3 h1 h3 =
    rw (ne→== s1.head expected h1, eq→== s3.head s1.head h3, eq→== node node refl) (refl, refl)

-- Three consecutive steps of one push at the states in which the other threads leave the stack.
-- Where the head at the first compare-exchange is neither what is expected nor the head at the
-- reload, but is the head again at the second compare-exchange, and the others leave the new node
-- alone, the push succeeds and its node is linked to the head of the reload instead of the node that
-- it covers: the stack no longer leads to the nodes that it held.
pub push_mislink :
    (expected node : ℕ) (s1 s2 s3 : Stack) (a v : ℕ) (xs : Cells)
    → s1.head ≢ expected
    → s2.head ≢ s1.head
    → s3.head ≡ s1.head
    → s3.next node ≡ (push_step (push_step (Push.swap expected node) s1).0 s2).1.next node
    → Chain s3.next s3.value s3.head ((a, v) ∷ xs)
    → let r = push_step (push_step (push_step (Push.swap expected node) s1).0 s2).0 s3 in
      (r.0 ≡ Push.count)
      × (r.1.head ≡ node)
      × (r.1.next node ≡ s2.head)
      × ¬ ((w : ℕ) × Chain r.1.next r.1.value r.1.head ((node, w) ∷ (a, v) ∷ xs))
push_mislink expected node s1 s2 s3 a v xs h1 h2 h3 link c =
    let r = run expected node s1 s2 s3 h1 h3 in
    let linked : s3.next node ≡ s2.head = link ∙ r.0 in
    rw r.1 (refl, refl, linked, λ bad. h2 (sym linked ∙ bad.1.4.0 ∙ sym c.0 ∙ h3))
