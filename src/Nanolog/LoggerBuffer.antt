-- ===== src/Nanolog/LoggerBuffer.antt =====
-- nanolog/include/Logger.hpp, class `Logger::LoggerBuffer`, and its slow path
-- `update_and_allocate_buffer` in nanolog/Logger.cpp: the byte ring between one logging thread
-- (the producer) and the IO thread (the consumer). A `char *` into `mBuffer` is its offset.
pub mod Pending
pub mod Threads
pub mod Safe
pub mod Fifo
pub mod Calls
mod Tests
use my_practise.Base.{
  ℕ, ◌+◌, ◌-◌, ◌%◌, ◌^◌, Bool, true, false, not, ◌&&◌, List, [], ◌∷◌, Option, none, some, ltb, leb,
  ◌==◌, if◌then◌else◌, Memory,
}

abbrev pub default_logger_buffer_size : ℕ
default_logger_buffer_size = 2 ^ 20

pub record LoggerBuffer : Type 0 where
  pub buffer_id : ℕ
  pub allocation_count : ℕ  -- uint64_t
  pub block_producer_times : ℕ  -- uint32_t
  pub discarded : Bool
  pub buffer : Memory
  pub free_space : ℕ
  pub produce_pos : ℕ
  pub buffer_data_end : ℕ
  pub consume_pos : ℕ

-- The constructor; the bytes of `mBuffer` are whatever the allocation holds.
unfoldable pub make : Memory → ℕ → LoggerBuffer
make garbage id = record {
  buffer_id = id;
  allocation_count = 0;
  block_producer_times = 0;
  discarded = false;
  buffer = garbage;
  free_space = 0;
  produce_pos = 0;
  buffer_data_end = default_logger_buffer_size;
  consume_pos = 0;
}

-- The body of the loop of `update_and_allocate_buffer` behind its first line, up to the test of
-- `canBlocking`; `cached` is `cacheConsumerPos`. True is the `break`.
unfoldable pub claim : ℕ → ℕ → LoggerBuffer → Bool × LoggerBuffer
claim nbytes cached b =
    if leb cached b.produce_pos
    then (if ltb nbytes (default_logger_buffer_size - b.produce_pos)
        then (true, record b { free_space = default_logger_buffer_size - b.produce_pos })
        else if cached == 0
        then (
          false,
          record b {
            free_space = default_logger_buffer_size - b.produce_pos;
            buffer_data_end = b.produce_pos;
          },
        )
        else (
          false,
          record b { free_space = cached; produce_pos = 0; buffer_data_end = b.produce_pos },
        ))
    else (false, record b { free_space = cached - b.produce_pos })

-- What a call for space gives: an offset, `nullptr`, or no return yet.
pub data Alloc : Type 0 where
  block : ℕ → Alloc
  null : Alloc
  spinning : Alloc

-- Behind the loop.
unfoldable pub grant : LoggerBuffer → Alloc × LoggerBuffer
grant b =
    (block b.produce_pos, record b { block_producer_times = (b.block_producer_times + 1) % 2 ^ 32 })

-- `update_and_allocate_buffer`. The list holds the values of `mConsumePos` that the rounds of the
-- loop read, one a round, as the consumer has moved it in the meantime.
unfoldable pub update_and_allocate_buffer : List ℕ → ℕ → Bool → LoggerBuffer → Alloc × LoggerBuffer
unfolding claim grant
update_and_allocate_buffer [] nbytes can_blocking b =
    if ltb nbytes b.free_space then grant b else (spinning, b)
update_and_allocate_buffer (c ∷ reads) nbytes can_blocking b =
    let (broke, b') = claim nbytes c (record b { consume_pos = c }) in
    let rest = update_and_allocate_buffer reads nbytes can_blocking b' in
    if ltb nbytes b.free_space
    then grant b
    else if broke
    then grant b'
    else if not can_blocking && leb b'.free_space nbytes
    then (null, b')
    else rest

unfoldable pub count_allocation : LoggerBuffer → LoggerBuffer
count_allocation b = record b { allocation_count = (b.allocation_count + 1) % 2 ^ 64 }

unfoldable pub allocate_buffer_with_size : List ℕ → ℕ → LoggerBuffer → Alloc × LoggerBuffer
unfolding update_and_allocate_buffer count_allocation
allocate_buffer_with_size reads nbytes b =
    let b' = count_allocation b in
    if ltb nbytes b'.free_space
    then (block b'.produce_pos, b')
    else update_and_allocate_buffer reads nbytes true b'

-- `none` is a failed assert.
unfoldable pub commit_buffer_with_size : ℕ → LoggerBuffer → Option LoggerBuffer
commit_buffer_with_size nbytes b =
    if ltb nbytes b.free_space && ltb (b.produce_pos + nbytes) default_logger_buffer_size
    then some
        (record b { free_space = b.free_space - nbytes; produce_pos = b.produce_pos + nbytes })
    else none

-- `fetch_buffer_with_size`, which `consume_buffer_with_size` calls.
unfoldable pub consume_buffer_with_size : ℕ → LoggerBuffer → LoggerBuffer
consume_buffer_with_size nbytes b = record b { consume_pos = b.consume_pos + nbytes }

-- What `peek_full_available_buffer` returns: the pointer, and `*totalBytes`.
abbrev pub Peeked : Type 0
Peeked = Option ℕ × ℕ

-- `*totalBytes = mBufferDataEnd - mConsumePos`, in `uint64_t`.
abbrev pub until_data_end : LoggerBuffer → ℕ
until_data_end b = (b.buffer_data_end + 2 ^ 64 - b.consume_pos) % 2 ^ 64

-- `peek_full_available_buffer` behind its first line; `cached` is `cachedProducePos`.
unfoldable pub peek_from : ℕ → LoggerBuffer → Peeked × LoggerBuffer
peek_from cached b =
    if ltb cached b.consume_pos
    then (if ltb 0 (until_data_end b)
        then ((some b.consume_pos, until_data_end b), b)
        else ((some 0, cached), record b { consume_pos = 0 }))
    else ((some b.consume_pos, cached - b.consume_pos), b)

unfoldable pub peek_full_available_buffer : LoggerBuffer → Peeked × LoggerBuffer
unfolding peek_from
peek_full_available_buffer b = peek_from b.produce_pos b

unfoldable pub peek_buffer_at_least : ℕ → LoggerBuffer → Option ℕ × LoggerBuffer
unfolding peek_full_available_buffer
peek_buffer_at_least at_least b =
    let (r, b') = peek_full_available_buffer b in if leb at_least r.1 then (r.0, b') else (none, b')

unfoldable pub waiting_for_destroy : LoggerBuffer → Bool
waiting_for_destroy b = b.discarded && b.consume_pos == b.produce_pos
