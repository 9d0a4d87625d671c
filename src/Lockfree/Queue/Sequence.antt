-- ===== src/Lockfree/Queue/Sequence.antt =====
-- Calls that no other thread disturbs: the queue of the values from the dummy to the tail.
use my_practise.Base.{
  ℕ, zero, suc, ◌+◌, ◌-◌, ◌%◌, ◌^◌, ◌≡◌, ◌≢◌, refl, ap, ◌∙◌, Option, none, some, [], ◌∷◌, ◌++◌,
  eq→==, ne→==, arith,
}
use my_practise.Lockfree.Sanitizer
use my_practise.Lockfree.Stack.{assign}
use my_practise.Lockfree.Stack.Chain.{Cells, Apart}
use my_practise.Lockfree.Queue.Line.{Line, Line-tail, Line-snoc, Line-clear, Line-Apart}
use my_practise.Lockfree.Queue.{Queue, QueuePush, QueuePop, queue_push_step, queue_pop_step}

unfoldable pub queue_push_steps : Option ℕ → ℕ → QueuePush → Queue → QueuePush × Queue
queue_push_steps hp zero pc q = (pc, q)
queue_push_steps hp (suc n) pc q =
    let (pc', q') = queue_push_step hp pc q in queue_push_steps hp n pc' q'

unfoldable pub queue_pop_steps : Option ℕ → ℕ → QueuePop → Queue → QueuePop × Queue
queue_pop_steps hp zero pc q = (pc, q)
queue_pop_steps hp (suc n) pc q =
    let (pc', q') = queue_pop_step hp pc q in queue_pop_steps hp n pc' q'

push_then :
    {pc' : QueuePush} {q' : Queue} {r : QueuePush × Queue} (hp : Option ℕ) (n : ℕ) (pc : QueuePush)
    (q : Queue)
    → queue_push_step hp pc q ≡ (pc', q')
    → queue_push_steps hp n pc' q' ≡ r
    → queue_push_steps hp (suc n) pc q ≡ r
unfolding queue_push_steps
push_then hp n pc q h k = ap (λ s. queue_push_steps hp n s.0 s.1) h ∙ k

pop_then :
    {pc' : QueuePop} {q' : Queue} {r : QueuePop × Queue} (hp : Option ℕ) (n : ℕ) (pc : QueuePop)
    (q : Queue)
    → queue_pop_step hp pc q ≡ (pc', q')
    → queue_pop_steps hp n pc' q' ≡ r
    → queue_pop_steps hp (suc n) pc q ≡ r
unfolding queue_pop_steps
pop_then hp n pc q h k = ap (λ s. queue_pop_steps hp n s.0 s.1) h ∙ k

-- The queue behind a push, and behind a pop of the node a.
abbrev pub appended : Option ℕ → ℕ → ℕ → Queue → Queue
appended hp node v q = record q {
  tail = node;
  size = (q.size + 1) % 2 ^ 64;
  next = assign (assign q.next node 0) q.tail node;
  value = assign q.value node (some v);
  sanitizer = (Sanitizer.access hp q.tail q.sanitizer).1;
}

abbrev pub removed : Option ℕ → ℕ → Queue → Queue
removed hp a q = record q {
  head = a;
  size = (q.size + 2 ^ 64 - 1) % 2 ^ 64;
  value = assign q.value a none;
  sanitizer =
      (Sanitizer.release q.head
        (Sanitizer.reset hp
          (Sanitizer.access hp a (Sanitizer.access hp q.head q.sanitizer).1).1).1).1;
}

queue_push_run :
    (hp : Option ℕ) (node v : ℕ) (q : Queue)
    → q.next q.tail ≡ 0
    → q.tail ≢ node
    → queue_push_steps hp 8 (QueuePush.start node v) q ≡ (QueuePush.pushed, appended hp node v q)
unfolding queue_push_step queue_push_steps
queue_push_run hp node v q e n =
    let t = q.tail in
    let q1 : Queue = record q {
      next = assign q.next node 0;
      value = assign q.value node (some v);
    } in
    let q2 : Queue = record q1 { sanitizer = (Sanitizer.access hp t q.sanitizer).1 } in
    let q3 : Queue = record q2 { next = assign q2.next t node } in
    let last : q2.next t ≡ 0 = ground (arith, e, n) in
    let checked : queue_push_step hp (QueuePush.recheck t node) q2
        ≡ (QueuePush.read_next t node, q2) =
      rw (eq→== t t refl) refl in
    let free : queue_push_step hp (QueuePush.read_next t node) q2 ≡ (QueuePush.append t node, q2) =
      rw (eq→== (q2.next t) 0 last) refl in
    let linked : queue_push_step hp (QueuePush.append t node) q2 ≡ (QueuePush.swing t node, q3) =
      rw (eq→== (q2.next t) 0 last) refl in
    let swung : queue_push_step hp (QueuePush.swing t node) q3
        ≡ (QueuePush.count, record q3 { tail = node }) =
      rw (eq→== t t refl) refl in
    push_then hp 7 (QueuePush.start node v) q refl (
      push_then hp 6 (QueuePush.load_tail node) q1 refl (
        push_then hp 5 (QueuePush.protect t node) q1 refl (
          push_then hp 4 (QueuePush.recheck t node) q2 checked (
            push_then hp 3 (QueuePush.read_next t node) q2 free (
              push_then hp 2 (QueuePush.append t node) q2 linked
                (push_then hp 1 (QueuePush.swing t node) q3 swung refl))))))

queue_pop_run :
    (hp : Option ℕ) (q : Queue)
    → q.head ≢ q.tail
    → queue_pop_steps hp 11 QueuePop.load_head q
      ≡ (QueuePop.popped (q.value (q.next q.head)), removed hp (q.next q.head) q)
unfolding queue_pop_step queue_pop_steps
queue_pop_run hp q n =
    let p = q.head in
    let a = q.next q.head in
    let q1 : Queue = record q { sanitizer = (Sanitizer.access hp p q.sanitizer).1 } in
    let q2 : Queue = record q1 { sanitizer = (Sanitizer.access hp a q1.sanitizer).1 } in
    let decided : queue_pop_step hp (QueuePop.decide p q.tail a) q ≡ (QueuePop.protect p a, q) =
      rw (ne→== p q.tail n) refl in
    let swapped : queue_pop_step hp (QueuePop.swap p a) q2
        ≡ (QueuePop.take p a, record q2 { head = a }) =
      rw (eq→== p p refl) refl in
    pop_then hp 10 QueuePop.load_head q refl (
      pop_then hp 9 (QueuePop.load_tail p) q refl (
        pop_then hp 8 (QueuePop.load_next p q.tail) q refl (
          pop_then hp 7 (QueuePop.decide p q.tail a) q decided (
            pop_then hp 6 (QueuePop.protect p a) q refl (
              pop_then hp 5 (QueuePop.protect_next p a) q1 refl
                (pop_then hp 4 (QueuePop.swap p a) q2 swapped refl))))))

-- An undisturbed push ends in eight steps, puts its value behind the values of the queue and
-- counts it, if its node is not null and none of the queue's.
pub queue_push_fifo :
    (hp : Option ℕ) (node v : ℕ) (q : Queue) (xs : Cells)
    → Line q.next q.value q.head xs q.tail
    → node ≢ 0
    → node ≢ q.head
    → Apart node xs
    → (q' : Queue) × (queue_push_steps hp 8 (QueuePush.start node v) q ≡ (QueuePush.pushed, q'))
      × Line q'.next q'.value q'.head (xs ++ (node, v) ∷ []) q'.tail
      × (q'.size ≡ (q.size + 1) % 2 ^ 64)
queue_push_fifo hp node v q xs l f n h =
    let (z, k) = Line-tail q.next q.value q.head xs q.tail node l n h in
    (
      appended hp node v q,
      queue_push_run hp node v q z k,
      Line-snoc q.next q.value q.head xs q.tail node v l f n h k,
      refl,
    )

-- An undisturbed pop of a queue with a value ends in eleven steps, returns the value in front, and
-- leaves the others and their count.
pub queue_pop_fifo :
    (hp : Option ℕ) (a v : ℕ) (q : Queue) (xs : Cells)
    → Line q.next q.value q.head ((a, v) ∷ xs) q.tail
    → (q' : Queue) × (queue_pop_steps hp 11 QueuePop.load_head q ≡ (QueuePop.popped (some v), q'))
      × Line q'.next q'.value q'.head xs q'.tail
      × (q'.size ≡ (q.size + 2 ^ 64 - 1) % 2 ^ 64)
queue_pop_fifo hp a v q xs l = (
  removed hp a q,
  queue_pop_run hp q l.4
      ∙ ap (λ b. (QueuePop.popped (q.value b), removed hp b q)) l.0
      ∙ ap (λ r. (QueuePop.popped r, removed hp a q)) l.2,
  Line-clear q.next q.value a a xs q.tail (Line-Apart q.next q.value a xs q.tail l.5) l.5,
  refl,
)

-- An undisturbed pop of an empty queue returns null in four steps and changes nothing.
pub queue_pop_empty :
    (hp : Option ℕ) (q : Queue)
    → Line q.next q.value q.head [] q.tail
    → queue_pop_steps hp 4 QueuePop.load_head q ≡ (QueuePop.popped none, q)
unfolding queue_pop_step queue_pop_steps
queue_pop_empty hp q (e, z) = rw (eq→== q.head q.tail e, z) refl
