-- ===== src/Nanolog/LoggerBuffer/Fifo.antt =====
-- The two threads of a `LoggerBuffer` move the committed bytes in order, without a loss and without
-- touching the same byte.
use my_practise.Base.{
  ℕ, ◌+◌, ◌-◌, ◌≤◌, ◌<◌, ◌≡◌, refl, sym, ◌∙◌, ap, ◌⊎◌, List, ◌++◌, some, length, append_assoc,
  arith, Memory, store, bytes,
}
use my_practise.Nanolog.LoggerBuffer.{
  LoggerBuffer, default_logger_buffer_size, make, claim, grant, count_allocation,
  commit_buffer_with_size, consume_buffer_with_size, peek_from,
}
use my_practise.Nanolog.LoggerBuffer.Pending.{
  pending, window-turn, window-rewind, window-commit, window-consume, window-store, window_straight,
}
use my_practise.Nanolog.LoggerBuffer.Threads.{
  Producer, Consumer, Channel, start, settle, Step, Reach,
}
use my_practise.Nanolog.LoggerBuffer.Safe.{
  Safe, count-Safe, grant-Safe, load-Safe, round-Safe, fill-Safe, commit-Safe, open-Safe, peek-Safe,
  consume-Safe, release-Safe, make-Safe,
}

module _ {b : LoggerBuffer} where
  open b use {buffer, consume_pos, produce_pos, buffer_data_end}

  pub pending-round :
      (n cached : ℕ) {c : Consumer}
      → Safe b (Producer.loaded n cached) c
      → pending (settle n (claim n cached b)).1 ≡ pending b
  unfolding claim grant
  pending-round n cached s = ground (
    arith,
    s.placed,
    s.producer_ok,
    window-turn buffer consume_pos produce_pos buffer_data_end,
    window_straight buffer consume_pos produce_pos buffer_data_end,
    window_straight buffer consume_pos produce_pos produce_pos,
  )

  pub pending-peek :
      (cached : ℕ) {p : Producer}
      → Safe b p (Consumer.loaded cached)
      → pending (peek_from cached b).1 ≡ pending b
  unfolding peek_from
  pending-peek cached s =
      ground (
        arith,
        s.placed,
        s.consumer_ok,
        window-rewind buffer consume_pos produce_pos buffer_data_end,
      )

  pub pending-commit :
      (n k : ℕ) {b' : LoggerBuffer} {c : Consumer}
      → k ≤ n
      → commit_buffer_with_size k b ≡ some b'
      → Safe b (Producer.granted n) c
      → pending b' ≡ pending b ++ bytes buffer produce_pos k
  unfolding commit_buffer_with_size
  pending-commit n k h e s = ground (
    arith,
    s.placed,
    s.producer_ok,
    window-commit buffer consume_pos produce_pos buffer_data_end k,
  )

  pub pending-consume :
      (left k : ℕ) {p : Producer}
      → k ≤ left
      → Safe b p (Consumer.holding left)
      → bytes buffer consume_pos k ++ pending (consume_buffer_with_size k b) ≡ pending b
  unfolding consume_buffer_with_size
  pending-consume left k h s = sym (
      window-consume buffer consume_pos produce_pos buffer_data_end k
        (ground (arith, s.consumer_ok)))

  pub pending-fill :
      (n : ℕ) (xs : List ℕ) {c : Consumer}
      → length xs ≤ n
      → Safe b (Producer.granted n) c
      → pending (record b { buffer = store buffer produce_pos xs }) ≡ pending b
  pending-fill n xs h s =
      window-store buffer consume_pos produce_pos buffer_data_end n xs h
        (ground (arith, s.placed, s.producer_ok))

pub record Inv (s : Channel) : Type 0 where
  pub safe : Safe s.buf s.producer s.consumer
  pub history : s.committed ≡ s.consumed ++ pending s.buf

pub start-Inv : (m : Memory) (id : ℕ) → Inv (start m id)
unfolding make bytes
start-Inv m id = record { safe = make-Safe m id; history = refl }

module _ {s : Channel} (inv : Inv s) where
  -- A step that commits and consumes nothing and keeps the bytes pending.
  quiet :
      (b : LoggerBuffer) (p : Producer) (c : Consumer)
      → Safe b p c
      → pending b ≡ pending s.buf
      → Inv (record s { buf = b; producer = p; consumer = c })
  quiet b p c safe e = record {
    safe = safe;
    history = inv.history ∙ ap (λ r. s.consumed ++ r) (sym e);
  }

  at_producer : {p : Producer} → s.producer ≡ p → Safe s.buf p s.consumer
  at_producer e = rw e at inv.safe

  at_consumer : {c : Consumer} → s.consumer ≡ c → Safe s.buf s.producer c
  at_consumer e = rw e at inv.safe

  pub Step-Inv : {t : Channel} → Step s t → Inv t
  unfolding count_allocation grant
  Step-Inv (Step.allocate_fast n e h) =
      quiet _ _ _ (count-Safe (Producer.granted n) inv.safe h) refl
  Step-Inv (Step.allocate_slow n e h) =
      quiet _ _ _ (count-Safe (Producer.looping n) inv.safe tt) refl
  Step-Inv (Step.leave n e h) = quiet _ _ _ (grant-Safe n h (at_producer e)) refl
  Step-Inv (Step.load_consume n e h) = quiet _ _ _ (load-Safe n (at_producer e)) refl
  Step-Inv (Step.round n cached e) =
      quiet _ _ _ (round-Safe n cached (at_producer e)) (pending-round n cached (at_producer e))
  Step-Inv (Step.fill n xs e h) =
      quiet _ _ _ (rw e (fill-Safe _ n (at_producer e))) (pending-fill n xs h (at_producer e))
  Step-Inv (Step.commit n k b e h c) = record {
    safe = commit-Safe n k h c (at_producer e);
    history =
        ap (λ r. r ++ bytes s.buf.buffer s.buf.produce_pos k) inv.history
        ∙ append_assoc s.consumed (pending s.buf) (bytes s.buf.buffer s.buf.produce_pos k)
        ∙ ap (λ r. s.consumed ++ r) (sym (pending-commit n k h c (at_producer e)));
  }
  Step-Inv (Step.load_produce e) = quiet _ _ _ (open-Safe (at_consumer e)) refl
  Step-Inv (Step.peek cached e) =
      quiet _ _ _ (peek-Safe cached (at_consumer e)) (pending-peek cached (at_consumer e))
  Step-Inv (Step.consume left k e h) = record {
    safe = consume-Safe left k h (at_consumer e);
    history =
        inv.history
        ∙ ap (λ r. s.consumed ++ r) (sym (pending-consume left k h (at_consumer e)))
        ∙ sym (append_assoc s.consumed (bytes s.buf.buffer s.buf.consume_pos k) _);
  }
  Step-Inv (Step.release left e) = quiet _ _ _ (release-Safe left (at_consumer e)) refl

pub Reach-Inv : {m : Memory} {id : ℕ} {s : Channel} → Reach m id s → Inv s
Reach-Inv {m} {id} Reach.begin = start-Inv m id
Reach-Inv (Reach.next r st) = Step-Inv (Reach-Inv r) st

-- In every reachable state of the two threads, the bytes committed so far are the bytes consumed so
-- far followed by the bytes pending in the ring: nothing is lost, repeated or reordered.
pub fifo :
    {m : Memory} {id : ℕ} {s : Channel} → Reach m id s → s.committed ≡ s.consumed ++ pending s.buf
fifo r = (Reach-Inv r).history

-- In every reachable state where the producer holds a block of `n` bytes and the consumer holds
-- `left` peeked bytes, the two blocks lie inside the storage and do not overlap.
pub blocks_apart :
    {m : Memory} {id : ℕ} {s : Channel} (n left : ℕ)
    → Reach m id s
    → s.producer ≡ Producer.granted n
    → s.consumer ≡ Consumer.holding left
    → (s.buf.produce_pos + n < default_logger_buffer_size)
      × (s.buf.consume_pos + left ≤ default_logger_buffer_size)
      × ((s.buf.produce_pos + n < s.buf.consume_pos)
          ⊎ (s.buf.consume_pos + left ≤ s.buf.produce_pos))
blocks_apart n left r e f = ground (arith, at_producer (Reach-Inv r) e, at_consumer (Reach-Inv r) f)

-- In every reachable state where the producer holds a block of `n` bytes, committing at most `n` of
-- them passes both asserts of `commit_buffer_with_size`.
pub commit-ne-none :
    {m : Memory} {id : ℕ} {s : Channel} (n k : ℕ)
    → Reach m id s
    → s.producer ≡ Producer.granted n
    → k ≤ n
    → (b : LoggerBuffer) × (commit_buffer_with_size k s.buf ≡ some b)
unfolding commit_buffer_with_size
commit-ne-none {s} n k r e h = (
  record (s.buf) { free_space = s.buf.free_space - k; produce_pos = s.buf.produce_pos + k },
  ground (arith, at_producer (Reach-Inv r) e),
)
