-- ===== src/Nanolog/LoggerBuffer/Tests.antt =====
-- The theorems on `LoggerBuffer` at concrete inputs, and runs of its operations.
use my_practise.Base.{
  ◌+◌, ◌-◌, ◌^◌, ◌≤◌, ◌<◌, ◌≡◌, ◌⊎◌, refl, false, [], ◌∷◌, ◌++◌, some, arith, Memory, store, bytes,
}
use my_practise.Nanolog.LoggerBuffer.{
  LoggerBuffer, Alloc, default_logger_buffer_size, make, claim, grant, count_allocation,
  commit_buffer_with_size, consume_buffer_with_size, peek_from, allocate_buffer_with_size,
}
use my_practise.Nanolog.LoggerBuffer.Pending.{pending}
use my_practise.Nanolog.LoggerBuffer.Threads.{Producer, Consumer, Channel, Step, Reach}
use my_practise.Nanolog.LoggerBuffer.Fifo.{fifo, blocks_apart, commit-ne-none}
use my_practise.Nanolog.LoggerBuffer.Calls.{allocate_drained}

abbrev blank : Memory
blank _ = 0

-- The channel after a schedule that allocates 4 bytes, fills 3 and commits them, peeks, and
-- consumes 2.
abbrev filled : LoggerBuffer
filled = record {
  buffer_id = 7;
  allocation_count = 1;
  block_producer_times = 1;
  discarded = false;
  buffer = store blank 0 (65 ∷ 66 ∷ 67 ∷ []);
  free_space = 2 ^ 20;
  produce_pos = 0;
  buffer_data_end = 2 ^ 20;
  consume_pos = 0;
}

abbrev writing : Channel
writing = record {
  buf = filled;
  producer = Producer.granted 4;
  consumer = Consumer.idle;
  committed = [];
  consumed = [];
}

writing-Reach : Reach blank 7 writing
unfolding make count_allocation claim grant
writing-Reach =
    Reach.next
      (Reach.next
        (Reach.next (Reach.next Reach.begin (Step.allocate_slow 4 refl (omega arith)))
          (Step.load_consume 4 refl (omega arith)))
        (Step.round 4 0 refl))
      (Step.fill 4 (65 ∷ 66 ∷ 67 ∷ []) refl (omega arith))

abbrev reading : Channel
reading = record {
  buf = record filled { free_space = 2 ^ 20 - 3; produce_pos = 3; consume_pos = 2 };
  producer = Producer.idle;
  consumer = Consumer.holding 1;
  committed = 65 ∷ 66 ∷ 67 ∷ [];
  consumed = 65 ∷ 66 ∷ [];
}

reading-Reach : Reach blank 7 reading
unfolding commit_buffer_with_size peek_from consume_buffer_with_size bytes store
reading-Reach =
    Reach.next
      (Reach.next
        (Reach.next (Reach.next writing-Reach (Step.commit 4 3 _ refl (omega arith) refl))
          (Step.load_produce refl))
        (Step.peek 3 refl))
      (Step.consume 3 2 refl (omega arith))

fifo_example : 65 ∷ 66 ∷ 67 ∷ [] ≡ (65 ∷ 66 ∷ []) ++ pending reading.buf
fifo_example = fifo reading-Reach

commit-ne-none_example : (b : LoggerBuffer) × (commit_buffer_with_size 3 filled ≡ some b)
commit-ne-none_example = commit-ne-none 4 3 writing-Reach refl (omega arith)

-- Behind `reading`, the logging thread is granted ten more bytes.
abbrev both : Channel
both = record reading { buf = count_allocation reading.buf; producer = Producer.granted 10 }

both-Reach : Reach blank 7 both
both-Reach = Reach.next reading-Reach (Step.allocate_fast 10 refl (omega arith))

blocks_apart_example :
    (3 + 10 < default_logger_buffer_size)
    × (2 + 1 ≤ default_logger_buffer_size)
    × ((3 + 10 < 2) ⊎ (2 + 1 ≤ 3))
unfolding count_allocation
blocks_apart_example = blocks_apart 10 1 both-Reach refl refl

-- A ring whose producer stands 16 bytes before the end, and whose consumer has read everything.
abbrev late : LoggerBuffer
late = record filled { free_space = 16; produce_pos = 2 ^ 20 - 16; consume_pos = 2 ^ 20 - 16 }

allocate_drained_example :
    let r = (allocate_buffer_with_size (late.produce_pos ∷ 0 ∷ []) 100 late).0 in
    (r ≡ Alloc.block late.produce_pos) ⊎ (r ≡ Alloc.block 0)
allocate_drained_example = allocate_drained 100 late (omega arith) (omega arith)
