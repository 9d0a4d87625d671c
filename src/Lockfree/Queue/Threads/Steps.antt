-- ===== src/Lockfree/Queue/Threads/Steps.antt =====
-- What the steps of a push and of a pop share.
use my_practise.Base.{
  ℕ, suc, ◌<◌, ◌≡◌, ◌≢◌, refl, sym, ap, ◌∙◌, subst, List, ◌==◌, ==→eq, if◌then◌else◌, Bool-cases,
  inl, inr, arith,
}
use my_practise.Lockfree.Stack.{assign}
use my_practise.Lockfree.Calls.{Event, Atomic, if_both}
use my_practise.Lockfree.Queue.{Queue}
use my_practise.Lockfree.Queue.Threads.{Thread, Machine, AtomicRun}
use my_practise.Lockfree.Queue.Threads.Ghosts.{
  Ghost, Shape, Stands, settle, At, Linked, Link, Later, Later-refl,
}
use my_practise.Lockfree.Queue.Threads.Shapes.{tail-Shape, tail-Later}

-- The atomic queue can follow to the machine m'.
abbrev pub Follows : Machine → Atomic → List Event → Type 0
Follows m' a es = (a' : Atomic) × (AtomicRun a es → AtomicRun a' es) × Stands m' a'

abbrev pub moved : Machine → ℕ → Thread → Queue → Machine
moved m t th q = record m { queue = q; threads = assign m.threads t th }

module _ (m : Machine) (a : Atomic) (s : Stands m a) (t : ℕ) (es : List Event) where
  -- The atomic queue does not move.
  pub quiet :
      (q : Queue) (th : Thread) (g' : Ghost)
      → Later t s.ghost m.queue.next m.queue.value g' q.next q.value
      → Shape g' q.head q.tail q.next q.value m.used a.contents
      → At g' q.next q.value t th (a.calls t)
      → Follows (moved m t th q) a es
  quiet q th g' l sh own =
      (a, λ r. r, settle m (moved m t th q) a a t th g' s l refl (λ u n. refl) sh own)

  pub still :
      (th : Thread)
      → At s.ghost m.queue.next m.queue.value t th (a.calls t)
      → Follows (moved m t th m.queue) a es
  still th own =
      quiet m.queue th s.ghost (Later-refl t s.ghost m.queue.next m.queue.value) s.shape own

  -- A linked node without a successor is the last one.
  pub last-Linked :
      (x : ℕ) → Linked s.ghost x → m.queue.next x ≡ 0 → x ≡ s.ghost.node_at s.ghost.last
  last-Linked x (i, h, e) z = elim (Bool-cases (i == s.ghost.last)) [
    | inl p ↦ sym e ∙ ap s.ghost.node_at (==→eq i s.ghost.last p)
    | inr p ↦
        let lt : i < s.ghost.last = ground (arith, h, p) in
        absurd (s.shape.nonzero (suc i) lt (sym (s.shape.linked i lt) ∙ ap m.queue.next e ∙ z))
  ]

  pub Link-next : (x : ℕ) → Linked s.ghost x → m.queue.next x ≢ 0 → Link s.ghost x (m.queue.next x)
  Link-next x (i, h, e) n = elim (Bool-cases (i == s.ghost.last)) [
    | inl p ↦
        absurd (
          n (ap m.queue.next (sym e ∙ ap s.ghost.node_at (==→eq i s.ghost.last p)) ∙ s.shape.ended))
    | inr p ↦
        let lt : i < s.ghost.last = ground (arith, h, p) in
        (i, lt, e, sym (s.shape.linked i lt) ∙ ap m.queue.next e)
  ]

  -- The compare-exchange that moves the tail, with any place of the thread behind it.
  pub move_tail :
      (x y : ℕ) (th : Thread)
      → Link s.ghost x y
      → At
          (record s.ghost { tail_at = suc s.ghost.tail_at })
          m.queue.next
          m.queue.value
          t
          th
          (a.calls t)
      → At s.ghost m.queue.next m.queue.value t th (a.calls t)
      → Follows
          (moved m t th (if m.queue.tail == x then record m.queue { tail = y } else m.queue))
          a
          es
  move_tail x y th (i, h, e, f) own own' =
      if_both (λ q. Follows (moved m t th q) a es) (m.queue.tail == x) (record m.queue { tail = y })
        m.queue
        (λ p.
          let g = s.ghost in
          let sh = s.shape in
          let at : g.tail_at ≡ i =
            sym (sh.placed g.tail_at sh.tail_last)
            ∙ ap g.place (sym sh.tail_is ∙ ==→eq m.queue.tail x p ∙ sym e)
            ∙ sh.placed i (omega arith) in
          let lt : g.tail_at < g.last = omega arith in
          let g' = record g { tail_at = suc g.tail_at } in
          let y_is : g.node_at (suc g.tail_at) ≡ y = ap (λ j. g.node_at (suc j)) at ∙ f in
          quiet (record m.queue { tail = y }) th g'
            (tail-Later g m.queue.head m.queue.tail m.queue.next m.queue.value m.used a.contents sh
              t)
            (subst (λ z. Shape g' m.queue.head z m.queue.next m.queue.value m.used a.contents) y_is
              (tail-Shape g m.queue.head m.queue.tail m.queue.next m.queue.value m.used a.contents
                sh lt))
            own)
        (λ p. still th own')
