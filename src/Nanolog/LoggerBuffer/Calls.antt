-- ===== src/Nanolog/LoggerBuffer/Calls.antt =====
-- What single calls on a `LoggerBuffer` return: the producer's loop for space, and the consumer's
-- look at the available bytes.
use my_practise.Base.{
  ℕ, ◌+◌, ◌-◌, ◌≤◌, ◌<◌, ◌≡◌, ◌≢◌, true, false, List, [], ◌∷◌, none, arith, bytes, length,
  length-bytes, length-append, ltb, if◌then◌else◌, ◌⊎◌, ◌↔◌,
}
use my_practise.Nanolog.LoggerBuffer.{
  LoggerBuffer, default_logger_buffer_size, Alloc, claim, update_and_allocate_buffer,
  allocate_buffer_with_size, peek_full_available_buffer, count_allocation,
}
use my_practise.Nanolog.LoggerBuffer.Pending.{pending}
use my_practise.Nanolog.LoggerBuffer.Safe.{Placed}

-- The loop for space returns a block as soon as it reads a consumer that has drained the ring and
-- then one that stands at the front, for every request below the size of the storage.
pub allocate_drained :
    (n : ℕ) (b : LoggerBuffer)
    → b.produce_pos ≤ default_logger_buffer_size
    → n < default_logger_buffer_size
    → let r = (allocate_buffer_with_size (b.produce_pos ∷ 0 ∷ []) n b).0 in
      (r ≡ Alloc.block b.produce_pos) ⊎ (r ≡ Alloc.block 0)
unfolding allocate_buffer_with_size
allocate_drained n b h k = ground arith

abbrev pub AllWithin : List ℕ → Type 0
AllWithin [] = Unit
AllWithin (c ∷ reads) = (c ≤ default_logger_buffer_size) × AllWithin reads

spins :
    (reads : List ℕ) (n : ℕ) (b : LoggerBuffer)
    → b.produce_pos ≤ default_logger_buffer_size
    → b.free_space ≤ n
    → default_logger_buffer_size ≤ n
    → AllWithin reads
    → (update_and_allocate_buffer reads n true b).0 ≡ Alloc.spinning
unfolding update_and_allocate_buffer
spins [] n b h f k w = ground arith
spins (c ∷ reads) n b h f k w =
    ground (arith, spins reads n (claim n c (record b { consume_pos = c })).1)

-- A request of the size of the storage or more never returns, whatever positions of the consumer
-- the rounds of the loop read.
pub allocate_too_large :
    (reads : List ℕ) (n : ℕ) (b : LoggerBuffer)
    → b.produce_pos ≤ default_logger_buffer_size
    → b.free_space ≤ default_logger_buffer_size
    → default_logger_buffer_size ≤ n
    → AllWithin reads
    → (allocate_buffer_with_size reads n b).0 ≡ Alloc.spinning
unfolding allocate_buffer_with_size
allocate_too_large reads n b h f k w = ground (arith, spins reads n (count_allocation b))

-- A call that may not block returns after the first round that it makes.
pub allocate_nonblocking :
    (c n : ℕ) (b : LoggerBuffer)
    → (update_and_allocate_buffer (c ∷ []) n false b).0 ≢ Alloc.spinning
unfolding update_and_allocate_buffer
allocate_nonblocking c n b = ground arith

-- The look at the available bytes never returns a null pointer, not even at an empty ring.
pub peek-ne-null : (b : LoggerBuffer) → (peek_full_available_buffer b).0.0 ≢ none
unfolding peek_full_available_buffer
peek-ne-null b = ground arith

length-pending :
    (b : LoggerBuffer)
    → length (pending b) ≡ (
        if ltb b.produce_pos b.consume_pos
        then b.buffer_data_end - b.consume_pos + b.produce_pos
        else b.produce_pos - b.consume_pos)
length-pending b = ground (
  arith,
  length-append (bytes b.buffer b.consume_pos (b.buffer_data_end - b.consume_pos))
      (bytes b.buffer 0 b.produce_pos),
  length-bytes b.buffer b.consume_pos (b.buffer_data_end - b.consume_pos),
  length-bytes b.buffer 0 b.produce_pos,
  length-bytes b.buffer b.consume_pos (b.produce_pos - b.consume_pos),
)

-- At well-placed positions the look at the available bytes finds none exactly when no byte is
-- pending.
pub peek-zero_iff :
    (b : LoggerBuffer)
    → Placed b
    → ((peek_full_available_buffer b).0.1 ≡ 0) ↔ (length (pending b) ≡ 0)
unfolding peek_full_available_buffer
peek-zero_iff b h = ground (arith, length-pending b)
