-- ===== src/Nanolog/SwapBuffer.antt =====
-- nanolog/include/SwapBuffer.hpp: the IO thread's double buffer of 4 KiB blocks. A `std::future` is
-- a value of the type `Future`, and the flush service a function that may return one. The vector
-- that `aio_flush` empties is read as one of blocks, as its members are.
pub mod Load
pub mod Flush
mod Tests
use my_practise.Base.{
  ℕ, zero, suc, ◌+◌, ◌-◌, ◌*◌, ◌/◌, ◌%◌, ◌^◌, ◌<◌, min, Bool, true, false, List, [], ◌∷◌, ◌++◌,
  Option, none, some, ltb, leb, ◌==◌, if◌then◌else◌, length, take, Memory, store, not, ◌||◌, ◌&&◌,
}

abbrev pub loading_iovec_capacity : ℕ
loading_iovec_capacity = 2 ^ 12

abbrev pub default_buffer_capacity_limit : ℕ
default_buffer_capacity_limit = loading_iovec_capacity * 4

abbrev pub swap_buffer_high_water_mark : ℕ
swap_buffer_high_water_mark = default_buffer_capacity_limit * 3 / 4

-- `struct iovec`: the block at `iov_base`, and `iov_len`.
pub record Block : Type 0 where
  pub base : Memory
  pub len : ℕ

pub record SwapBuffer (Future : Type 0) : Type 0 where
  pub loaded_buffer_size : ℕ
  pub is_full : Bool
  pub flush_future : Option Future
  pub cur_loading_pos : ℕ
  pub cur_loading_buffer_index : ℕ
  pub loading_buffer_vector : List Block
  pub flushing_buffer_vector : List Block

-- A call returns, or runs into undefined behaviour (`back()` of an empty
-- vector, a read behind the message), or needs more
-- rounds of its loop than it was given.
pub data Outcome {ℓ} (A : Type ℓ) : Type ℓ where
  returns : A → Outcome A
  undefined : Outcome A
  out_of_fuel : Outcome A

-- `memcpy(back().iov_base + pos, message, consume)`
unfoldable pub copy_to_back : List Block → ℕ → List ℕ → Option (List Block)
copy_to_back [] pos xs = none
copy_to_back (b ∷ []) pos xs = some (record b { base = store b.base pos xs } ∷ [])
copy_to_back (b ∷ c ∷ bs) pos xs = elim (copy_to_back (c ∷ bs) pos xs) [
  | none ↦ none
  | some cs ↦ some (b ∷ cs)
]

module _ {Future : Type 0} where
  unfoldable pub make : SwapBuffer Future
  make = record {
    loaded_buffer_size = 0;
    is_full = false;
    flush_future = none;
    cur_loading_pos = 0;
    cur_loading_buffer_index = 0;
    loading_buffer_vector = [];
    flushing_buffer_vector = [];
  }

  -- `size` returns a `bool`: whether the count is not 0.
  unfoldable pub size : SwapBuffer Future → Bool
  size s = not (s.loaded_buffer_size == 0)

  unfoldable pub empty : SwapBuffer Future → Bool
  unfolding size
  empty s = not (size s)

  unfoldable pub full : SwapBuffer Future → Bool
  full s = s.is_full

  -- `mallocs k` is what the allocation of block `k` finds in its memory.
  unfoldable pub allocate_new_buffer_block : (ℕ → Memory) → SwapBuffer Future → SwapBuffer Future
  allocate_new_buffer_block mallocs s = record s {
    loading_buffer_vector =
        s.loading_buffer_vector
        ++ record { base = mallocs (length s.loading_buffer_vector); len = 0 } ∷ [];
  }

  -- The bytes that one round copies.
  abbrev pub consume : SwapBuffer Future → ℕ → ℕ
  consume s remaining = min remaining (loading_iovec_capacity - s.cur_loading_pos)

  -- The `memcpy` of a round, which reads from the start of the message; behind its end it is undefined.
  unfoldable pub copy_message : List ℕ → ℕ → SwapBuffer Future → Option (List Block)
  unfolding copy_to_back
  copy_message message n s =
      if ltb (length message) n
      then none
      else copy_to_back s.loading_buffer_vector s.cur_loading_pos (take n message)

  -- The end of a round: `remaining` is what is left of the message.
  unfoldable pub turn_block : (ℕ → Memory) → ℕ → SwapBuffer Future → SwapBuffer Future
  unfolding allocate_new_buffer_block
  turn_block mallocs remaining s =
      if ltb 0 remaining && s.cur_loading_pos == loading_iovec_capacity
      then record (allocate_new_buffer_block mallocs s) {
        cur_loading_buffer_index = s.cur_loading_buffer_index + 1;
        cur_loading_pos = 0;
      }
      else s

  -- The `while (remaining)` loop.
  unfoldable pub load_loop :
      (ℕ → Memory) → List ℕ → ℕ → ℕ → SwapBuffer Future → Outcome (SwapBuffer Future)
  unfolding copy_message turn_block
  load_loop mallocs message zero remaining s = Outcome.out_of_fuel
  load_loop mallocs message (suc fuel) zero s = Outcome.returns s
  load_loop mallocs message (suc fuel) (suc r) s =
      elim (copy_message message (consume s (suc r)) s) [
        | none ↦ Outcome.undefined
        | some blocks ↦ load_loop mallocs message fuel (suc r - consume s (suc r)) (
            turn_block mallocs (suc r - consume s (suc r)) (record s {
              loading_buffer_vector = blocks;
              cur_loading_pos = s.cur_loading_pos + consume s (suc r);
            }))
      ]

  -- The accounting in front of the loop.
  unfoldable pub account : ℕ → SwapBuffer Future → SwapBuffer Future
  account msz s = record s {
    loaded_buffer_size = (s.loaded_buffer_size + msz) % 2 ^ 64;
    is_full =
        if leb swap_buffer_high_water_mark ((s.loaded_buffer_size + msz) % 2 ^ 64)
        then true
        else s.is_full;
  }

  unfoldable pub load_buffer_from :
      (ℕ → Memory) → List ℕ → ℕ → SwapBuffer Future → Outcome (ℕ × SwapBuffer Future)
  unfolding load_loop account
  load_buffer_from mallocs message msz s =
      let run = load_loop mallocs message (msz + 2) msz (account msz s) in
      if ltb ((msz + s.loaded_buffer_size) % 2 ^ 64) default_buffer_capacity_limit
      then (elim run [
        | Outcome.returns s' ↦ Outcome.returns (msz, s')
        | Outcome.undefined ↦ Outcome.undefined
        | Outcome.out_of_fuel ↦ Outcome.out_of_fuel
      ])
      else Outcome.returns (0, s)

  -- A pending flush is waited for; the loading blocks go to the service, and no block is left to
  -- load into.
  unfoldable pub aio_flush :
      (List Block → Option Future) → SwapBuffer Future → Bool × SwapBuffer Future
  aio_flush service s = (
    true,
    record s {
      flushing_buffer_vector = s.loading_buffer_vector;
      loading_buffer_vector = [];
      flush_future = service s.loading_buffer_vector;
    },
  )
