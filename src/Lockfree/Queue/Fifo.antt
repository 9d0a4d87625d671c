-- ===== src/Lockfree/Queue/Fifo.antt =====
-- What a step of one thread can do to the end of the queue, whatever the other threads did before.
use my_practise.Base.{
  ℕ, ◌≡◌, ◌≢◌, inl, inr, refl, sym, ap, ◌∙◌, Option, ◌==◌, Bool-cases, ne→==, arith,
}
use my_practise.Lockfree.Queue.{Queue, QueuePush, queue_push_step}

-- No step of a push changes the successor of a node that has one, except that of its own new node
-- when it starts: an appended node is never unlinked by another push.
pub queue_push_step-keeps_links :
    (hp : Option ℕ) (pc : QueuePush) (q : Queue) (a : ℕ)
    → q.next a ≢ 0
    → ((node v : ℕ) → pc ≡ QueuePush.start node v → a ≢ node)
    → (queue_push_step hp pc q).1.next a ≡ q.next a
unfolding queue_push_step
queue_push_step-keeps_links hp (QueuePush.start node v) q a h fresh =
    let ne = fresh node v refl in ground (arith, ne)
queue_push_step-keeps_links hp (QueuePush.load_tail node) q a h fresh = refl
queue_push_step-keeps_links hp (QueuePush.protect pre node) q a h fresh = refl
queue_push_step-keeps_links hp (QueuePush.recheck pre node) q a h fresh = ground arith
queue_push_step-keeps_links hp (QueuePush.read_next ori node) q a h fresh = ground arith
queue_push_step-keeps_links hp (QueuePush.help ori next node) q a h fresh = ground arith
queue_push_step-keeps_links hp (QueuePush.append ori node) q a h fresh =
    elim (Bool-cases (q.next ori == 0)) [
      | inl e ↦
          let last : q.next ori ≡ 0 = ground (arith, e) in
          let ne = ne→== ori a (λ p. h (ap q.next (sym p) ∙ last)) in rw (e, ne)
      | inr e ↦ rw (e)
    ]
queue_push_step-keeps_links hp (QueuePush.swing ori node) q a h fresh = ground arith
queue_push_step-keeps_links hp QueuePush.count q a h fresh = refl
queue_push_step-keeps_links hp QueuePush.pushed q a h fresh = refl
