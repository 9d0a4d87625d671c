-- ===== src/Nanolog/LoggerBuffer/Threads.antt =====
-- One `LoggerBuffer` under its two threads, interleaved in any order. A step reads the other
-- thread's position at most once: the load of `mConsumePos` that opens a round of
-- `update_and_allocate_buffer` and the load of `mProducePos` that opens
-- `peek_full_available_buffer` are steps of their own.
use my_practise.Base.{
  ℕ, ◌-◌, ◌≤◌, ◌<◌, ◌≡◌, Bool, true, false, List, [], ◌++◌, some, length, Memory, store, bytes,
}
use my_practise.Nanolog.LoggerBuffer.{
  LoggerBuffer, make, claim, grant, count_allocation, commit_buffer_with_size,
  consume_buffer_with_size, peek_from,
}

-- Where the logging thread stands.
pub data Producer : Type 0 where
  idle : Producer
  looping : (nbytes : ℕ) → Producer  -- at the test of the `while`
  loaded : (nbytes cached : ℕ) → Producer  -- behind `cacheConsumerPos = mConsumePos`
  granted : (nbytes : ℕ) → Producer  -- between the return of the call and the commit

-- Where the IO thread stands.
pub data Consumer : Type 0 where
  idle : Consumer
  loaded : (cached : ℕ) → Consumer  -- behind `cachedProducePos = mProducePos`
  holding : (left : ℕ) → Consumer  -- behind a peek, with `left` of its bytes not consumed yet

-- The buffer, both threads, and the history: every byte committed, and every byte consumed.
pub record Channel : Type 0 where
  pub buf : LoggerBuffer
  pub producer : Producer
  pub consumer : Consumer
  pub committed : List ℕ
  pub consumed : List ℕ

abbrev pub start : Memory → ℕ → Channel
start garbage id = record {
  buf = make garbage id;
  producer = Producer.idle;
  consumer = Consumer.idle;
  committed = [];
  consumed = [];
}

-- Behind the load of a round: on `break` the call returns, and else the loop is tested again,
-- since `allocate_buffer_with_size` always allows it to block.
abbrev pub settle : ℕ → Bool × LoggerBuffer → Producer × LoggerBuffer
settle nbytes (true, b) = (Producer.granted nbytes, (grant b).1)
settle nbytes (false, b) = (Producer.looping nbytes, b)

pub data Step (s : Channel) : Channel → Type 0 where
  allocate_fast :
      (n : ℕ)
      → s.producer ≡ Producer.idle
      → n < s.buf.free_space
      → Step s (record s { buf = count_allocation s.buf; producer = Producer.granted n })
  allocate_slow :
      (n : ℕ)
      → s.producer ≡ Producer.idle
      → s.buf.free_space ≤ n
      → Step s (record s { buf = count_allocation s.buf; producer = Producer.looping n })
  leave :
      (n : ℕ)
      → s.producer ≡ Producer.looping n
      → n < s.buf.free_space
      → Step s (record s { buf = (grant s.buf).1; producer = Producer.granted n })
  load_consume :
      (n : ℕ)
      → s.producer ≡ Producer.looping n
      → s.buf.free_space ≤ n
      → Step s (record s { producer = Producer.loaded n s.buf.consume_pos })
  round :
      (n cached : ℕ)
      → s.producer ≡ Producer.loaded n cached
      → Step s (record s {
        buf = (settle n (claim n cached s.buf)).1;
        producer = (settle n (claim n cached s.buf)).0;
      })
  -- The caller fills the block that it was given, or a part of it.
  fill :
      (n : ℕ) (xs : List ℕ)
      → s.producer ≡ Producer.granted n
      → length xs ≤ n
      → Step s
          (record s { buf = record (s.buf) { buffer = store s.buf.buffer s.buf.produce_pos xs } })
  commit :
      (n k : ℕ) (b : LoggerBuffer)
      → s.producer ≡ Producer.granted n
      → k ≤ n
      → commit_buffer_with_size k s.buf ≡ some b
      → Step s (record s {
        buf = b;
        producer = Producer.idle;
        committed = s.committed ++ bytes s.buf.buffer s.buf.produce_pos k;
      })
  load_produce :
      s.consumer ≡ Consumer.idle
      → Step s (record s { consumer = Consumer.loaded s.buf.produce_pos })
  peek :
      (cached : ℕ)
      → s.consumer ≡ Consumer.loaded cached
      → Step s (record s {
        buf = (peek_from cached s.buf).1;
        consumer = Consumer.holding (peek_from cached s.buf).0.1;
      })
  consume :
      (left k : ℕ)
      → s.consumer ≡ Consumer.holding left
      → k ≤ left
      → Step s (record s {
        buf = consume_buffer_with_size k s.buf;
        consumer = Consumer.holding (left - k);
        consumed = s.consumed ++ bytes s.buf.buffer s.buf.consume_pos k;
      })
  release :
      (left : ℕ)
      → s.consumer ≡ Consumer.holding left
      → Step s (record s { consumer = Consumer.idle })

pub data Reach (garbage : Memory) (id : ℕ) : Channel → Type 0 where
  begin : Reach garbage id (start garbage id)
  next : {s t : Channel} → Reach garbage id s → Step s t → Reach garbage id t
