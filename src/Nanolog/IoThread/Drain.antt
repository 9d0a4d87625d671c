-- ===== src/Nanolog/IoThread/Drain.antt =====
-- Draining a peeked block into the swap buffer is all or nothing.
use my_practise.Base.{
  ℕ, zero, suc, ◌+◌, ◌≤◌, ◌<◌, ◌^◌, ◌%◌, ◌≡◌, refl, true, length, false, List, arith, Memory,
}
use native.Mathlib.Nat.{sub_self}
use my_practise.Nanolog.LoggerBuffer.{consume_buffer_with_size}
use my_practise.Nanolog.SwapBuffer.{Outcome, default_buffer_capacity_limit}
use my_practise.Nanolog.SwapBuffer.Load.{Ready, load_buffer_from-ok, load_buffer_from-full}
use my_practise.Nanolog.IoThread.{Draining, drain_loop}

module _ {Future : Type 0} where
  -- A peeked block that fits into a swap buffer with a block to write to is consumed whole.
  pub drain-all :
      (mallocs : ℕ → Memory) (n : ℕ) (message : List ℕ) (d : Draining Future)
      → 0 < n
      → n ≤ length message
      → Ready d.swap
      → n + d.swap.loaded_buffer_size < default_buffer_capacity_limit
      → (e : Draining Future) × (drain_loop mallocs 2 n message d ≡ Outcome.returns (false, e))
        × (e.buffer ≡ consume_buffer_with_size n d.buffer)
        × (e.consumed ≡ (d.consumed + n) % 2 ^ 64)
        × (e.swap.loaded_buffer_size ≡ d.swap.loaded_buffer_size + n)
  unfolding drain_loop
  drain-all mallocs zero message d pos long h fits = absurd (omega arith)
  drain-all mallocs (suc r) message d pos long h fits =
      let (t, run, ready, moved, grown, flag) =
        load_buffer_from-ok mallocs message (suc r) d.swap h long fits in
      (
        record {
          swap = t;
          buffer = consume_buffer_with_size (suc r) d.buffer;
          consumed = (d.consumed + suc r) % 2 ^ 64;
        },
        rw (run, drain_loop, sub_self),
        refl,
        refl,
        grown,
      )

  -- A peeked block that does not fit is not consumed at all, not even in part: the logging thread's
  -- buffer, the swap buffer and the count stay as they are.
  pub drain-none :
      (mallocs : ℕ → Memory) (fuel n : ℕ) (message : List ℕ) (d : Draining Future)
      → default_buffer_capacity_limit ≤ n + d.swap.loaded_buffer_size
      → n + d.swap.loaded_buffer_size < 2 ^ 64
      → 0 < n
      → drain_loop mallocs (suc fuel) n message d ≡ Outcome.returns (true, d)
  unfolding drain_loop
  drain-none mallocs fuel zero message d big small pos = absurd (omega arith)
  drain-none mallocs fuel (suc r) message d big small pos =
      rw (load_buffer_from-full mallocs message (suc r) d.swap big small, drain_loop)
