-- ===== src/Lockfree/Queue/Threads/Pushes.antt =====
-- Every step of a push is followed by the atomic queue: its link at the last node by the push.
use my_practise.Base.{
  ℕ, suc, refl, sym, ◌∙◌, subst, Option, some, List, [], ◌∷◌, ◌++◌, ◌==◌, ==→eq, ==→ne, arith,
}
use my_practise.Lockfree.Stack.{assign}
use my_practise.Lockfree.Calls.{
  Event, Call, Atomic, called, assign_self, assign-other, others, if_both,
}
use my_practise.Lockfree.Queue.{Queue, QueuePush, queue_push_step}
use my_practise.Lockfree.Queue.Threads.{Thread, Machine, moved_push, push}
use my_practise.Lockfree.Queue.Threads.Ghosts.{Stands, settle, Made, PushAt, Later-refl}
use my_practise.Lockfree.Queue.Threads.Shapes.{start-Shape, start-Later}
use my_practise.Lockfree.Queue.Threads.Ends.{appended, append-Shape, append-Later}
use my_practise.Lockfree.Queue.Threads.Steps.{
  Follows, quiet, still, last-Linked, Link-next, move_tail,
}

module _ (m : Machine) (a : Atomic) (s : Stands m a) (t : ℕ) (es : List Event) where
  -- The link behind the last node.
  append_follows :
      (node : ℕ)
      → Made s.ghost m.queue.next m.queue.value t node (a.calls t)
      → Follows
          (moved_push m t (
            QueuePush.swing (s.ghost.node_at s.ghost.last) node,
            record m.queue { next = assign m.queue.next (s.ghost.node_at s.ghost.last) node },
          ))
          a
          es
  append_follows node (v, e, o, val, end, real) =
      let g = s.ghost in
      let q = m.queue in
      let q' : Queue = record q { next = assign q.next (g.node_at g.last) node } in
      let a' : Atomic = record (called a t Call.pushed) { contents = a.contents ++ v ∷ [] } in
      (
        a',
        λ r. push t v r e,
        settle m (moved_push m t (QueuePush.swing (g.node_at g.last) node, q')) a a' t
            (Thread.pushing (QueuePush.swing (g.node_at g.last) node)) (appended g node v) s
            (append-Later g q.head q.tail q.next q.value m.used a.contents s.shape t node v o val
              end real)
            refl (others a t Call.pushed)
            (append-Shape g q.head q.tail q.next q.value m.used a.contents s.shape t node v o val
              end real)
            (
              assign_self a.calls t Call.pushed,
              (
                g.last,
                omega arith,
                assign-other g.node_at (suc g.last) node g.last (omega arith),
                assign_self g.node_at (suc g.last) node,
              ),
            ),
      )

  pub push_follows :
      (hp : Option ℕ) (pc : QueuePush)
      → PushAt s.ghost m.queue.next m.queue.value t pc (a.calls t)
      → Follows (moved_push m t (queue_push_step hp pc m.queue)) a es
  unfolding queue_push_step
  push_follows hp (QueuePush.start node v) (e, o, n) =
      let g = s.ghost in
      let q = m.queue in
      quiet m a s t es
        (record q { next = assign q.next node 0; value = assign q.value node (some v) })
        (Thread.pushing (QueuePush.load_tail node)) g
        (start-Later g q.head q.tail q.next q.value m.used a.contents s.shape t node v o)
        (start-Shape g q.head q.tail q.next q.value m.used a.contents s.shape t node v o)
        (v, e, o, assign_self q.value node (some v), assign_self q.next node 0, n)
  push_follows hp (QueuePush.load_tail node) h =
      still m a s t es (Thread.pushing (QueuePush.protect m.queue.tail node)) h
  push_follows hp (QueuePush.protect pre node) h =
      quiet m a s t es (queue_push_step hp (QueuePush.protect pre node) m.queue).1
        (Thread.pushing (QueuePush.recheck pre node)) s.ghost
        (Later-refl t s.ghost m.queue.next m.queue.value) s.shape h
  push_follows hp (QueuePush.recheck pre node) h =
      if_both (λ r. Follows (moved_push m t r) a es) (m.queue.tail == pre)
        (QueuePush.read_next pre node, m.queue) (QueuePush.protect m.queue.tail node, m.queue)
        (λ p.
          still m a s t es (Thread.pushing (QueuePush.read_next pre node)) (
            h,
            (s.ghost.tail_at, s.shape.tail_last, sym s.shape.tail_is ∙ ==→eq m.queue.tail pre p),
          ))
        (λ p. still m a s t es (Thread.pushing (QueuePush.protect m.queue.tail node)) h)
  push_follows hp (QueuePush.read_next ori node) (h, k) =
      if_both (λ r. Follows (moved_push m t r) a es) (m.queue.next ori == 0)
        (QueuePush.append ori node, m.queue) (QueuePush.help ori (m.queue.next ori) node, m.queue)
        (λ p. still m a s t es (Thread.pushing (QueuePush.append ori node)) (h, k))
        (λ p.
          still m a s t es (Thread.pushing (QueuePush.help ori (m.queue.next ori) node))
            (h, Link-next m a s t es ori k (==→ne (m.queue.next ori) 0 p)))
  push_follows hp (QueuePush.help ori next node) (h, k) =
      move_tail m a s t es ori next (Thread.pushing (QueuePush.protect ori node)) k h h
  push_follows hp (QueuePush.append ori node) (h, k) =
      if_both (λ r. Follows (moved_push m t r) a es) (m.queue.next ori == 0)
        (QueuePush.swing ori node, record m.queue { next = assign m.queue.next ori node })
        (QueuePush.protect ori node, m.queue)
        (λ p.
          subst
            (λ x.
              Follows
                (moved_push m t
                  (QueuePush.swing x node, record m.queue { next = assign m.queue.next x node }))
                a es)
            (sym (last-Linked m a s t es ori k (==→eq (m.queue.next ori) 0 p)))
            (append_follows node h))
        (λ p. still m a s t es (Thread.pushing (QueuePush.protect ori node)) h)
  push_follows hp (QueuePush.swing ori node) (h, k) =
      move_tail m a s t es ori node (Thread.pushing QueuePush.count) k h h
  push_follows hp QueuePush.count h =
      quiet m a s t es (queue_push_step hp QueuePush.count m.queue).1
        (Thread.pushing QueuePush.pushed) s.ghost (Later-refl t s.ghost m.queue.next m.queue.value)
        s.shape h
  push_follows hp QueuePush.pushed h = still m a s t es (Thread.pushing QueuePush.pushed) h
