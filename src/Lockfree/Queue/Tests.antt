-- ===== src/Lockfree/Queue/Tests.antt =====
-- The theorem on the queue at a concrete state.
use my_practise.Base.{
  [], ◌∷◌, refl, ◌+◌, ◌-◌, ◌%◌, ◌^◌, ◌≡◌, false, none, some, ◌==◌, if◌then◌else◌, arith,
}
use my_practise.Lockfree.Sanitizer
use my_practise.Lockfree.Queue.{Queue, QueuePush, QueuePop}
use my_practise.Lockfree.Queue.Line.{Line}
use my_practise.Lockfree.Queue.Sequence.{
  queue_push_steps, queue_pop_steps, queue_push_fifo, queue_pop_fifo,
}

-- The dummy 10 and the node 20; another thread has appended 20 and not yet moved the tail.
abbrev lagging : Queue
lagging = record {
  head = 10;
  tail = 10;
  size = 0;
  next = λ a. if a == 10 then 20 else 0;
  value = λ a. if a == 20 then some 6 else none;
  sanitizer = Sanitizer.make 2 false;
}

-- The dummy 10 and the node 20 with its value.
abbrev one_value : Queue
one_value = record lagging { tail = 20 }

one_value-Line : Line one_value.next one_value.value one_value.head ((20, 6) ∷ []) one_value.tail
one_value-Line = (refl, omega arith, refl, (omega arith, tt), omega arith, (refl, refl))

queue_push_fifo_example :
    (q' : Queue) × (queue_push_steps (some 0) 8 (QueuePush.start 30 7) one_value
      ≡ (QueuePush.pushed, q'))
    × Line q'.next q'.value q'.head ((20, 6) ∷ (30, 7) ∷ []) q'.tail
    × (q'.size ≡ (one_value.size + 1) % 2 ^ 64)
queue_push_fifo_example =
    queue_push_fifo (some 0) 30 7 one_value ((20, 6) ∷ []) one_value-Line (omega arith)
      (omega arith) (omega arith, tt)

queue_pop_fifo_example :
    (q' : Queue) × (queue_pop_steps (some 0) 11 QueuePop.load_head one_value
      ≡ (QueuePop.popped (some 6), q'))
    × Line q'.next q'.value q'.head [] q'.tail
    × (q'.size ≡ (one_value.size + 2 ^ 64 - 1) % 2 ^ 64)
queue_pop_fifo_example = queue_pop_fifo (some 0) 20 6 one_value [] one_value-Line
