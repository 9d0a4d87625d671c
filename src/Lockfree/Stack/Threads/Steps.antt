-- ===== src/Lockfree/Stack/Threads/Steps.antt =====
-- Every step of a thread is followed by the atomic stack: the compare-exchanges by a push and a pop,
-- and the read of a null head by the pop of an empty stack.
use my_practise.Base.{
  ℕ, ◌≡◌, ◌≢◌, refl, sym, ap, ◌∙◌, subst, Option, none, some, List, [], ◌∷◌, ◌⊎◌, inl, inr, ◌==◌,
  ==→eq, eq→==, arith,
}
use my_practise.Lockfree.Calls.{Event, Call, Atomic, called, assign_self, others, if_both}
use my_practise.Lockfree.Sanitizer
use my_practise.Lockfree.Stack.{Stack, Push, Pop, push_step, pop_step, assign}
use my_practise.Lockfree.Stack.Chain.{Cells, Chain}
use my_practise.Lockfree.Stack.Threads.{
  Thread, Machine, Listed, moved, moved_push, moved_pop, AtomicRun, push, pop, pop_empty,
}
use my_practise.Lockfree.Stack.Threads.Ghosts.{
  Owner, Ghost, Members, Gone, values, Shape, PushAt, PopAt, Made, At, Later, Later-refl, Stands,
  settle,
}
use my_practise.Lockfree.Stack.Threads.Shapes.{
  start-Shape, start-Later, link-Shape, link-Later, push-Shape, push-Later,
}
use my_practise.Lockfree.Stack.Threads.Removals.{
  pop-Shape, pop_has, pop_value, pop-Later, take-Shape, take-Later,
}
use my_practise.Lockfree.Stack.Threads.Waste.{access-list, reset-list, release-Listed}

-- The atomic stack can follow to the machine m'.
abbrev pub Follows : ℕ → Machine → Atomic → List Event → Type 0
Follows p m' a es = (a' : Atomic) × (AtomicRun a es → AtomicRun a' es) × Stands p m' a'

-- The stack is empty, or its head is the first node.
abbrev Top : ℕ → Cells → Type 0
Top head xs =
    ((head ≡ 0) × (xs ≡ [])) ⊎ ((v : ℕ) × (ys : Cells) × (xs ≡ (head, v) ∷ ys) × (head ≢ 0))

Top-cases :
    (next : ℕ → ℕ) (value : ℕ → Option ℕ) (head : ℕ) (xs : Cells)
    → Chain next value head xs
    → Top head xs
Top-cases next value head [] c = inl (c, refl)
Top-cases next value head ((b, v) ∷ ys) c =
    inr (v, ys, ap (λ x. (x, v) ∷ ys) (sym c.0), λ e. c.1 (sym c.0 ∙ e))

module _ (p : ℕ) (m : Machine) (a : Atomic) (s : Stands p m a) (t : ℕ) (es : List Event) where
  -- The atomic stack does not move.
  quiet :
      (k : Stack) (th : Thread)
      → Later p t s.ghost.owner m.stack.head m.stack.next m.stack.value s.ghost.owner k.head k.next
          k.value
      → Shape s.ghost k.head k.next k.value m.used a.contents
      → At p s.ghost.owner k.head k.next k.value t th (a.calls t)
      → ((b : ℕ)
          → Listed b k.sanitizer.backward_deleting_list
          → Listed b m.stack.sanitizer.backward_deleting_list ⊎ Gone s.ghost.owner b)
      → Follows p (moved m t th k) a es
  quiet k th l sh own listed =
      (a, λ r. r, settle p m (moved m t th k) a a t th s.ghost s l refl (λ u n. refl) sh own listed)

  still :
      (th : Thread)
      → At p s.ghost.owner m.stack.head m.stack.next m.stack.value t th (a.calls t)
      → Follows p (moved m t th m.stack) a es
  still th own =
      quiet m.stack th (Later-refl p t s.ghost.owner m.stack.head m.stack.next m.stack.value)
        s.shape own (λ b j. inl j)

  top : Top m.stack.head s.ghost.line
  top = Top-cases m.stack.next m.stack.value m.stack.head s.ghost.line s.shape.chain

  head_member : m.stack.head ≢ 0 → s.ghost.owner m.stack.head ≡ Owner.member
  head_member n = elim top [
    | inl (z, e) ↦ absurd (n z)
    | inr (v, ys, e, k) ↦ (subst (Members s.ghost.owner) e s.shape.members).0
  ]

  head_not-Gone : ¬ Gone s.ghost.owner m.stack.head
  head_not-Gone (w, h) = elim top [
    | inl (z, e) ↦ let null = s.shape.null in ground (arith, null, h, ap s.ghost.owner z)
    | inr (v, ys, e, n) ↦ let k = head_member n in ground (arith, k, h)
  ]

  -- The head that is read is null, or is looked at further.
  test_follows :
      a.calls t ≡ Call.popping → Follows p (moved_pop m t (Pop.test m.stack.head, m.stack)) a es
  test_follows h = elim top [
    | inl (z, e) ↦
        let k = m.stack in
        let g = s.ghost in
        let a' : Atomic = called a t (Call.popped none) in
        (
          a',
          λ r. pop_empty t r h (s.shape.has ∙ ap values e),
          settle p m (moved_pop m t (Pop.test k.head, k)) a a' t (Thread.popping (Pop.test k.head))
              g s (Later-refl p t g.owner k.head k.next k.value) refl
              (others a t (Call.popped none)) s.shape
              (inl (z, assign_self a.calls t (Call.popped none))) (λ b j. inl j),
        )
    | inr (v, ys, e, n) ↦ still (Thread.popping (Pop.test m.stack.head)) (inr (n, h))
  ]

  -- The compare-exchange of a push.
  push_now :
      (node : ℕ)
      → Made p s.ghost.owner m.stack.value t node (a.calls t)
      → m.stack.next node ≡ m.stack.head
      → Follows p (moved_push m t (Push.count, record m.stack { head = node })) a es
  push_now node (v, tp, e, o, h, n) link =
      let k = m.stack in
      let g = s.ghost in
      let a' : Atomic = record (called a t Call.pushed) { contents = v ∷ a.contents } in
      let g' : Ghost = record {
        line = (node, v) ∷ g.line;
        owner = assign g.owner node Owner.member;
      } in
      (
        a',
        λ r. push t v r e,
        settle p m (moved_push m t (Push.count, record k { head = node })) a a' t
            (Thread.pushing Push.count) g' s
            (push-Later g k.head k.next k.value m.used a.contents s.shape p t node o tp) refl
            (others a t Call.pushed)
            (push-Shape g k.head k.next k.value m.used a.contents s.shape p t node o v link h n)
            (assign_self a.calls t Call.pushed) (λ b j. inl j),
      )

  -- The compare-exchange of a pop.
  pop_now :
      m.stack.head ≢ 0
      → a.calls t ≡ Call.popping
      → Follows p
          (moved_pop m t
            (Pop.take m.stack.head, record m.stack { head = m.stack.next m.stack.head }))
          a
          es
  pop_now n h = elim top [
    | inl (z, e) ↦ absurd (n z)
    | inr (v, ys, e, n') ↦
        let k = m.stack in
        let g = s.ghost in
        let a' : Atomic = record (called a t (Call.popped (some v))) { contents = values ys } in
        let g' : Ghost = record { line = ys; owner = assign g.owner k.head (Owner.taker t) } in
        let sh = s.shape in
        (
          a',
          λ r.
              pop t v (values ys) r h
                (pop_has g k.head k.next k.value m.used a.contents sh p t k.head v ys e),
          settle p m (moved_pop m t (Pop.take k.head, record k { head = k.next k.head })) a a' t
              (Thread.popping (Pop.take k.head)) g' s
              (pop-Later g k.head k.next k.value m.used a.contents sh p t k.head v ys e) refl
              (others a t (Call.popped (some v)))
              (pop-Shape g k.head k.next k.value m.used a.contents sh p t k.head v ys e)
              (
                v,
                assign_self a.calls t (Call.popped (some v)),
                assign_self g.owner k.head (Owner.taker t),
                pop_value g k.head k.next k.value m.used a.contents sh p t k.head v ys e,
              )
              (λ b j. inl j),
        )
  ]

  pub push_follows :
      (pc : Push)
      → PushAt p s.ghost.owner m.stack.head m.stack.next m.stack.value t pc (a.calls t)
      → Follows p (moved_push m t (push_step pc m.stack)) a es
  unfolding push_step
  push_follows (Push.start node v) (tp, e, o, n) =
      let k = m.stack in
      quiet (record k { next = assign k.next node k.head; value = assign k.value node (some v) })
        (Thread.pushing (Push.swap k.head node))
        (start-Later s.ghost k.head k.next k.value m.used a.contents s.shape p t node o k.head v)
        (start-Shape s.ghost k.head k.next k.value m.used a.contents s.shape p t node o k.head v)
        ((v, tp, e, o, assign_self k.value node (some v), n), inl (assign_self k.next node k.head))
        (λ b j. inl j)
  push_follows (Push.swap expected node) (h, x) =
      if_both (λ r. Follows p (moved_push m t r) a es) (m.stack.head == expected)
        (Push.count, record m.stack { head = node }) (Push.reload m.stack.head node, m.stack)
        (λ q.
          let same = ==→eq m.stack.head expected q in
          push_now node h (elim x [
            | inl e ↦ e ∙ sym same
            | inr e ↦ absurd (head_not-Gone (subst (Gone s.ghost.owner) (sym same) e))
          ]))
        (λ q. still (Thread.pushing (Push.reload m.stack.head node)) (h, inl refl))
  push_follows (Push.reload expected node) ((v, tp, e, o, h, n), x) =
      let k = m.stack in
      quiet (record k { next = assign k.next node k.head })
        (Thread.pushing (Push.swap expected node))
        (link-Later s.ghost k.head k.next k.value m.used a.contents s.shape p t node o k.head)
        (link-Shape s.ghost k.head k.next k.value m.used a.contents s.shape p t node o k.head)
        (
          (v, tp, e, o, h, n),
          elim x [ inl y ↦ inl (assign_self k.next node k.head ∙ y) | inr y ↦ inr y ],
        )
        (λ b j. inl j)
  push_follows Push.count h =
      quiet (push_step Push.count m.stack).1 (Thread.pushing Push.pushed)
        (Later-refl p t s.ghost.owner m.stack.head m.stack.next m.stack.value) s.shape h
        (λ b j. inl j)
  push_follows Push.pushed h = still (Thread.pushing Push.pushed) h

  pub pop_follows :
      (hp : Option ℕ) (pc : Pop)
      → PopAt s.ghost.owner m.stack.next m.stack.value t pc (a.calls t)
      → Follows p (moved_pop m t (pop_step hp pc m.stack)) a es
  unfolding pop_step
  pop_follows hp Pop.load h = test_follows h
  pop_follows hp (Pop.test ori) (inl (z, h)) =
      rw (eq→== ori 0 z) (still (Thread.popping (Pop.popped none)) h)
  pop_follows hp (Pop.test ori) (inr (n, h)) =
      if_both (λ r. Follows p (moved_pop m t r) a es) (ori == 0) (Pop.popped none, m.stack)
        (
          Pop.recheck ori,
          record m.stack { sanitizer = (Sanitizer.access hp ori m.stack.sanitizer).1 },
        )
        (λ q. absurd (n (==→eq ori 0 q)))
        (λ q.
          quiet (record m.stack { sanitizer = (Sanitizer.access hp ori m.stack.sanitizer).1 })
            (Thread.popping (Pop.recheck ori))
            (Later-refl p t s.ghost.owner m.stack.head m.stack.next m.stack.value) s.shape (n, h)
            (λ b j. inl (subst (Listed b) (access-list hp ori m.stack.sanitizer) j)))
  pop_follows hp (Pop.recheck ori) (n, h) =
      if_both (λ r. Follows p (moved_pop m t r) a es) (m.stack.head == ori) (Pop.read ori, m.stack)
        (Pop.test m.stack.head, m.stack)
        (λ q.
          let same = ==→eq m.stack.head ori q in
          still (Thread.popping (Pop.read ori))
            (n, h, inl (sym (ap s.ghost.owner same) ∙ head_member (λ e. n (sym same ∙ e)))))
        (λ q. test_follows h)
  pop_follows hp (Pop.read ori) (n, h, x) =
      still (Thread.popping (Pop.swap ori (m.stack.next ori))) (n, h, x, λ k. refl)
  pop_follows hp (Pop.swap ori after) (n, h, x, e) =
      if_both (λ r. Follows p (moved_pop m t r) a es) (m.stack.head == ori)
        (Pop.take ori, record m.stack { head = after }) (Pop.test ori, m.stack)
        (λ q.
          let same = ==→eq m.stack.head ori q in
          let member = sym (ap s.ghost.owner same) ∙ head_member (λ z. n (sym same ∙ z)) in
          subst (λ y. Follows p (moved_pop m t (Pop.take ori, record m.stack { head = y })) a es)
            (e member)
            (subst
              (λ y.
                Follows p (moved_pop m t (Pop.take y, record m.stack { head = m.stack.next y })) a
                  es)
              same (pop_now (λ z. n (sym same ∙ z)) h)))
        (λ q. still (Thread.popping (Pop.test ori)) (inr (n, h)))
  pop_follows hp (Pop.take ori) (v, e, o, h) =
      let k = m.stack in
      quiet (record k { value = assign k.value ori none })
        (Thread.popping (Pop.count ori (k.value ori)))
        (take-Later s.ghost k.head k.next k.value m.used a.contents s.shape p t ori o)
        (take-Shape s.ghost k.head k.next k.value m.used a.contents s.shape t ori o)
        (e ∙ ap Call.popped (sym h), o) (λ b j. inl j)
  pop_follows hp (Pop.count ori ret) h =
      quiet (pop_step hp (Pop.count ori ret) m.stack).1 (Thread.popping (Pop.clear ori ret))
        (Later-refl p t s.ghost.owner m.stack.head m.stack.next m.stack.value) s.shape h
        (λ b j. inl j)
  pop_follows hp (Pop.clear ori ret) h =
      quiet (pop_step hp (Pop.clear ori ret) m.stack).1 (Thread.popping (Pop.free ori ret))
        (Later-refl p t s.ghost.owner m.stack.head m.stack.next m.stack.value) s.shape h
        (λ b j. inl (subst (Listed b) (reset-list hp m.stack.sanitizer) j))
  pop_follows hp (Pop.free ori ret) (h, o) =
      quiet (pop_step hp (Pop.free ori ret) m.stack).1 (Thread.popping (Pop.popped ret))
        (Later-refl p t s.ghost.owner m.stack.head m.stack.next m.stack.value) s.shape h
        (λ b j. elim (release-Listed b ori m.stack.sanitizer j) [
          | inl e ↦ inr (t, ap s.ghost.owner e ∙ o)
          | inr i ↦ inl i
        ])
  pop_follows hp (Pop.popped ret) h = still (Thread.popping (Pop.popped ret)) h
