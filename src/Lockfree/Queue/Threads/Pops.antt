-- ===== src/Lockfree/Queue/Threads/Pops.antt =====
-- Every step of a pop is followed by the atomic queue: the move of the head by the pop, and the read
-- of a null successor by the pop of an empty queue.
use my_practise.Base.{
  ℕ, suc, ◌-◌, ◌≤◌, ◌<◌, ◌≡◌, ◌≢◌, refl, sym, ap, ◌∙◌, subst, Option, none, some, List, ◌==◌, ==→eq,
  ==→ne, eq→==, ne→==, Bool-cases, inl, inr, arith,
}
use my_practise.Lockfree.Stack.{assign}
use my_practise.Lockfree.Calls.{Event, Call, Atomic, called, assign_self, others, if_both}
use my_practise.Lockfree.Queue.{Queue, QueuePop, queue_pop_step}
use my_practise.Lockfree.Queue.Threads.{Thread, Machine, moved_pop, pop, pop_empty}
use my_practise.Lockfree.Queue.Threads.Ghosts.{
  Owner, Shape, Stands, settle, PopAt, Link, Later, Later-refl, slice,
}
use my_practise.Lockfree.Queue.Threads.Shapes.{take-Shape, take-Later}
use my_practise.Lockfree.Queue.Threads.Ends.{
  advanced, advance_contents, advance-Shape, advance-Later,
}
use my_practise.Lockfree.Queue.Threads.Steps.{
  Follows, quiet, still, last-Linked, Link-next, move_tail,
}

module _ (m : Machine) (a : Atomic) (s : Stands m a) (t : ℕ) (es : List Event) where
  -- A step that leaves the nodes alone.
  keep :
      (q : Queue) (pc : QueuePop)
      → Shape s.ghost q.head q.tail q.next q.value m.used a.contents
      → q.next ≡ m.queue.next
      → q.value ≡ m.queue.value
      → PopAt s.ghost q.value t pc (a.calls t)
      → Follows (moved_pop m t (pc, q)) a es
  keep q pc sh en ev h =
      quiet m a s t es q (Thread.popping pc) s.ghost
        (subst (λ n. Later t s.ghost m.queue.next m.queue.value s.ghost n q.value) (sym en)
          (subst (λ v. Later t s.ghost m.queue.next m.queue.value s.ghost m.queue.next v) (sym ev)
            (Later-refl t s.ghost m.queue.next m.queue.value)))
        sh h

  -- The queue is found empty.
  empty_follows :
      (head tail i j : ℕ)
      → a.calls t ≡ Call.popping
      → i ≤ s.ghost.head_at
      → s.ghost.node_at i ≡ head
      → i ≤ j
      → j ≤ s.ghost.tail_at
      → s.ghost.node_at j ≡ tail
      → m.queue.next head ≡ 0
      → Follows (moved_pop m t (QueuePop.decide head tail (m.queue.next head), m.queue)) a es
  unfolding slice
  empty_follows head tail i j h k e p q f z =
      let g = s.ghost in
      let sh = s.shape in
      let ht = sh.head_tail in
      let tl = sh.tail_last in
      let at_end : i ≡ g.last =
        sym (sh.placed i (omega arith))
        ∙ ap g.place (e ∙ last-Linked m a s t es head (i, omega arith, e) z)
        ∙ sh.placed g.last (omega arith) in
      let i_j : i ≡ j = omega arith in
      let a' : Atomic = called a t (Call.popped none) in
      let no_values : g.last - g.head_at ≡ 0 = omega arith in
      (
        a',
        λ r. pop_empty t r h (sh.has ∙ ap (slice g.value_at (suc g.head_at)) no_values),
        settle m (moved_pop m t (QueuePop.decide head tail (m.queue.next head), m.queue)) a a' t
            (Thread.popping (QueuePop.decide head tail (m.queue.next head))) g s
            (Later-refl t g m.queue.next m.queue.value) refl (others a t (Call.popped none)) sh
            (inl (assign_self a.calls t (Call.popped none), sym e ∙ ap g.node_at i_j ∙ f, z)),
      )

  -- The queue is found with a value.
  found_follows :
      (head tail i j : ℕ)
      → a.calls t ≡ Call.popping
      → i ≤ s.ghost.head_at
      → s.ghost.node_at i ≡ head
      → i ≤ j
      → j ≤ s.ghost.tail_at
      → s.ghost.node_at j ≡ tail
      → m.queue.next head ≢ 0
      → Follows (moved_pop m t (QueuePop.decide head tail (m.queue.next head), m.queue)) a es
  found_follows head tail i j h k e p q f n =
      let g = s.ghost in
      let sh = s.shape in
      let ht = sh.head_tail in
      let tl = sh.tail_last in
      let own : PopAt g m.queue.value t (QueuePop.decide head tail (m.queue.next head))
          (a.calls t) =
        elim (Bool-cases (head == tail)) [
          | inl x ↦
              inr (h, n, inl (==→eq head tail x, Link-next m a s t es head (i, omega arith, e) n))
          | inr x ↦
              let d = ==→ne head tail x in
              let i_j : i ≢ j = λ y. d (sym e ∙ ap g.node_at y ∙ f) in
              let lt : i < j = ground (arith, i_j, p) in
              inr (
                h,
                n,
                inr (d, (i, omega arith, e, sym (sh.linked i (omega arith)) ∙ ap m.queue.next e)),
              )
        ] in
      still m a s t es (Thread.popping (QueuePop.decide head tail (m.queue.next head))) own

  -- The head moves.
  advance_follows :
      (next i : ℕ)
      → a.calls t ≡ Call.popping
      → i ≡ s.ghost.head_at
      → i < s.ghost.tail_at
      → s.ghost.node_at (suc i) ≡ next
      → (head : ℕ)
      → Follows (moved_pop m t (QueuePop.take head next, record m.queue { head = next })) a es
  advance_follows next i h at k f head =
      let g = s.ghost in
      let sh = s.shape in
      let q = m.queue in
      let tl = sh.tail_last in
      let lt : g.head_at < g.tail_at = omega arith in
      let v = g.value_at (suc g.head_at) in
      let rest = slice g.value_at (suc (suc g.head_at)) (g.last - suc g.head_at) in
      let a' : Atomic = record (called a t (Call.popped (some v))) { contents = rest } in
      let x_is : g.node_at (suc g.head_at) ≡ next = ap (λ j. g.node_at (suc j)) (sym at) ∙ f in
      subst (λ x. Follows (moved_pop m t (QueuePop.take head x, record m.queue { head = x })) a es)
        x_is
        (let x = g.node_at (suc g.head_at) in
          (
            a',
            λ r.
                pop t v rest r h
                  (advance_contents g q.head q.tail q.next q.value m.used a.contents sh t lt),
            settle m (moved_pop m t (QueuePop.take head x, record q { head = x })) a a' t
                (Thread.popping (QueuePop.take head x)) (advanced g t) s
                (advance-Later g q.head q.tail q.next q.value m.used a.contents sh t lt) refl
                (others a t (Call.popped (some v)))
                (advance-Shape g q.head q.tail q.next q.value m.used a.contents sh t lt)
                (
                  v,
                  assign_self a.calls t (Call.popped (some v)),
                  assign_self g.owner x (Owner.taker t),
                  sh.holds (suc g.head_at) (omega arith) (omega arith),
                ),
          ))

  pub pop_follows :
      (hp : Option ℕ) (pc : QueuePop)
      → PopAt s.ghost m.queue.value t pc (a.calls t)
      → Follows (moved_pop m t (queue_pop_step hp pc m.queue)) a es
  unfolding queue_pop_step
  pop_follows hp QueuePop.load_head h =
      still m a s t es (Thread.popping (QueuePop.load_tail m.queue.head))
        (h, s.ghost.head_at, omega arith, sym s.shape.head_is)
  pop_follows hp (QueuePop.load_tail head) (h, i, k, e) =
      let p = s.shape.head_tail in
      still m a s t es (Thread.popping (QueuePop.load_next head m.queue.tail))
        (h, i, k, e, s.ghost.tail_at, omega arith, omega arith, sym s.shape.tail_is)
  pop_follows hp (QueuePop.load_next head tail) (h, i, k, e, j, p, q, f) =
      elim (Bool-cases (m.queue.next head == 0)) [
        | inl z ↦ empty_follows head tail i j h k e p q f (==→eq (m.queue.next head) 0 z)
        | inr n ↦ found_follows head tail i j h k e p q f (==→ne (m.queue.next head) 0 n)
      ]
  pop_follows hp (QueuePop.decide head tail next) (inl (h, e, z)) =
      rw (eq→== head tail e, eq→== next 0 z)
        (still m a s t es (Thread.popping (QueuePop.popped none)) h)
  pop_follows hp (QueuePop.decide head tail next) (inr (h, n, inl (e, k))) =
      rw (eq→== head tail e, ne→== next 0 n)
        (still m a s t es (Thread.popping (QueuePop.help tail next))
          (h, subst (λ x. Link s.ghost x next) e k))
  pop_follows hp (QueuePop.decide head tail next) (inr (h, n, inr (e, k))) =
      rw (ne→== head tail e) (still m a s t es (Thread.popping (QueuePop.protect head next)) (h, k))
  pop_follows hp (QueuePop.help tail next) (h, k) =
      move_tail m a s t es tail next (Thread.popping QueuePop.load_head) k h h
  pop_follows hp (QueuePop.protect head next) h =
      keep (queue_pop_step hp (QueuePop.protect head next) m.queue).1
        (QueuePop.protect_next head next) s.shape refl refl h
  pop_follows hp (QueuePop.protect_next head next) h =
      keep (queue_pop_step hp (QueuePop.protect_next head next) m.queue).1 (QueuePop.swap head next)
        s.shape refl refl h
  pop_follows hp (QueuePop.swap head next) (h, (i, k, e, f)) =
      if_both (λ r. Follows (moved_pop m t r) a es) (m.queue.head == head)
        (QueuePop.take head next, record m.queue { head = next }) (QueuePop.load_head, m.queue)
        (λ p.
          let g = s.ghost in
          let sh = s.shape in
          let ht = sh.head_tail in
          let tl = sh.tail_last in
          let at : i ≡ g.head_at =
            sym (sh.placed i (omega arith))
            ∙ ap g.place (e ∙ sym (==→eq m.queue.head head p) ∙ sh.head_is)
            ∙ sh.placed g.head_at (omega arith) in
          advance_follows next i h at k f head)
        (λ p. still m a s t es (Thread.popping QueuePop.load_head) h)
  pop_follows hp (QueuePop.take head next) (v, e, o, val) =
      let g = s.ghost in
      let q = m.queue in
      quiet m a s t es (record q { value = assign q.value next none })
        (Thread.popping (QueuePop.count head (q.value next))) g
        (take-Later g q.head q.tail q.next q.value m.used a.contents s.shape t next o)
        (take-Shape g q.head q.tail q.next q.value m.used a.contents s.shape t next o)
        (e ∙ ap Call.popped (sym val))
  pop_follows hp (QueuePop.count head ret) h =
      keep (queue_pop_step hp (QueuePop.count head ret) m.queue).1 (QueuePop.clear head ret) s.shape
        refl refl h
  pop_follows hp (QueuePop.clear head ret) h =
      keep (queue_pop_step hp (QueuePop.clear head ret) m.queue).1 (QueuePop.free head ret) s.shape
        refl refl h
  pop_follows hp (QueuePop.free head ret) h =
      keep (queue_pop_step hp (QueuePop.free head ret) m.queue).1 (QueuePop.popped ret) s.shape refl
        refl h
  pop_follows hp (QueuePop.popped ret) h = still m a s t es (Thread.popping (QueuePop.popped ret)) h
