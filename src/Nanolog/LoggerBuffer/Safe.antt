-- ===== src/Nanolog/LoggerBuffer/Safe.antt =====
-- The positions of a `LoggerBuffer` under its two threads: what each thread's cached reading and
-- granted block say, and that every step keeps it.
use my_practise.Base.{ℕ, ◌+◌, ◌-◌, ◌≤◌, ◌<◌, ◌≡◌, ◌⊎◌, some, arith, Memory}
use my_practise.Nanolog.LoggerBuffer.{
  LoggerBuffer, default_logger_buffer_size, make, claim, grant, count_allocation,
  commit_buffer_with_size, consume_buffer_with_size, peek_from,
}
use my_practise.Nanolog.LoggerBuffer.Threads.{Producer, Consumer, settle}

-- The producer is behind the consumer, in the second half of a turn, or before it.
abbrev pub Placed : LoggerBuffer → Type 0
Placed b =
    (b.buffer_data_end ≤ default_logger_buffer_size)
    × (((b.produce_pos < b.consume_pos)
          × (b.produce_pos + b.free_space ≤ b.consume_pos)
          × (b.consume_pos ≤ b.buffer_data_end))
        ⊎ ((b.consume_pos ≤ b.produce_pos)
            × (b.produce_pos + b.free_space ≤ default_logger_buffer_size)))

abbrev pub ProducerOk : LoggerBuffer → Producer → Type 0
ProducerOk b Producer.idle = Unit {0}
ProducerOk b (Producer.looping n) = Unit {0}
ProducerOk b (Producer.loaded n cached) =
    (cached ≤ default_logger_buffer_size)
    × (((b.produce_pos < b.consume_pos) × (b.produce_pos < cached) × (cached ≤ b.consume_pos))
        ⊎ ((b.consume_pos ≤ b.produce_pos) × ((cached ≤ b.consume_pos) ⊎ (b.produce_pos < cached))))
ProducerOk b (Producer.granted n) = n < b.free_space

abbrev pub ConsumerOk : LoggerBuffer → Consumer → Type 0
ConsumerOk b Consumer.idle = Unit {0}
ConsumerOk b (Consumer.loaded cached) =
    ((cached < b.consume_pos) × (b.produce_pos < b.consume_pos) × (cached ≤ b.produce_pos))
    ⊎ ((b.consume_pos ≤ cached)
        × (((b.produce_pos < b.consume_pos) × (cached ≤ b.buffer_data_end))
            ⊎ ((b.consume_pos ≤ b.produce_pos) × (cached ≤ b.produce_pos))))
ConsumerOk b (Consumer.holding left) =
    ((b.produce_pos < b.consume_pos) × (b.consume_pos + left ≤ b.buffer_data_end))
    ⊎ ((b.consume_pos ≤ b.produce_pos) × (b.consume_pos + left ≤ b.produce_pos))

pub record Safe (b : LoggerBuffer) (p : Producer) (c : Consumer) : Type 0 where
  pub placed : Placed b
  pub producer_ok : ProducerOk b p
  pub consumer_ok : ConsumerOk b c

module _ {b : LoggerBuffer} where
  pub count-Safe :
      {p : Producer} {c : Consumer} (q : Producer)
      → Safe b p c
      → ProducerOk b q
      → Safe (count_allocation b) q c
  unfolding count_allocation
  count-Safe {c = Consumer.idle} Producer.idle s k = ground arith
  count-Safe q s k = ground arith

  pub grant-Safe :
      (n : ℕ) {c : Consumer}
      → n < b.free_space
      → Safe b (Producer.looping n) c
      → Safe (grant b).1 (Producer.granted n) c
  unfolding grant
  grant-Safe n {c = Consumer.idle} h s = ground arith
  grant-Safe n h s = ground arith

  pub load-Safe :
      (n : ℕ) {c : Consumer}
      → Safe b (Producer.looping n) c
      → Safe b (Producer.loaded n b.consume_pos) c
  load-Safe n s = record {
    placed = s.placed;
    producer_ok = ground arith;
    consumer_ok = s.consumer_ok;
  }

  pub fill-Safe :
      (m : Memory) (n : ℕ) {c : Consumer}
      → Safe b (Producer.granted n) c
      → Safe (record b { buffer = m }) (Producer.granted n) c
  fill-Safe m n {c = Consumer.idle} s = ground arith
  fill-Safe m n s = ground arith

  pub commit-Safe :
      (n k : ℕ) {c : Consumer} {b' : LoggerBuffer}
      → k ≤ n
      → commit_buffer_with_size k b ≡ some b'
      → Safe b (Producer.granted n) c
      → Safe b' Producer.idle c
  unfolding commit_buffer_with_size
  commit-Safe n k {c = Consumer.idle} h e s = ground arith
  commit-Safe n k h e s = ground arith

  pub round-Safe :
      (n cached : ℕ) {c : Consumer}
      → Safe b (Producer.loaded n cached) c
      → Safe (settle n (claim n cached b)).1 (settle n (claim n cached b)).0 c
  unfolding claim grant
  round-Safe n cached {c = Consumer.idle} s = ground arith
  round-Safe n cached s = ground arith

  pub peek-Safe :
      (cached : ℕ) {p : Producer}
      → Safe b p (Consumer.loaded cached)
      → Safe (peek_from cached b).1 p (Consumer.holding (peek_from cached b).0.1)
  unfolding peek_from
  peek-Safe cached {p = Producer.idle} s = ground arith
  peek-Safe cached s = ground arith

  pub consume-Safe :
      (left k : ℕ) {p : Producer}
      → k ≤ left
      → Safe b p (Consumer.holding left)
      → Safe (consume_buffer_with_size k b) p (Consumer.holding (left - k))
  unfolding consume_buffer_with_size
  consume-Safe left k {p = Producer.idle} h s = ground arith
  consume-Safe left k h s = ground arith

  pub open-Safe : {p : Producer} → Safe b p Consumer.idle → Safe b p (Consumer.loaded b.produce_pos)
  open-Safe s = record {
    placed = s.placed;
    producer_ok = s.producer_ok;
    consumer_ok = ground arith;
  }

  pub release-Safe :
      (left : ℕ) {p : Producer} → Safe b p (Consumer.holding left) → Safe b p Consumer.idle
  release-Safe left s = record { placed = s.placed; producer_ok = s.producer_ok; consumer_ok = tt }

pub make-Safe : (m : Memory) (id : ℕ) → Safe (make m id) Producer.idle Consumer.idle
unfolding make
make-Safe m id = ground arith
