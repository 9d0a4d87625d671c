-- ===== src/Nanolog/IoThread/Rings.antt =====
-- nanolog/Logger.cpp, `IoBackgroundThreadFunction`: the loop over the logging threads' rings, by which each
-- of its rounds starts. The other threads do not write into the rings meanwhile.
pub mod Spin
use my_practise.Base.{
  ℕ, zero, suc, ◌+◌, ◌-◌, ◌%◌, ◌^◌, Bool, true, false, not, ◌&&◌, ◌||◌, List, [], ◌∷◌, Option, none,
  some, ltb, leb, ◌==◌, if◌then◌else◌, length, get_elem?, set_elem, bytes, Memory,
}
use my_practise.Nanolog.LoggerBuffer.{LoggerBuffer, peek_full_available_buffer, waiting_for_destroy}
use my_practise.Nanolog.SwapBuffer.{SwapBuffer, Outcome, full}
use my_practise.Nanolog.IoThread.{Draining, drain_loop}

pub record Reading (Future : Type 0) : Type 0 where
  pub swap : SwapBuffer Future
  pub rings : List LoggerBuffer  -- mThreadLoggerBufferPtrs
  pub last_checked : ℕ  -- lastNonEmptyBufferIndexChecked
  pub is_new_round : Bool
  pub consumed : ℕ

-- `mThreadLoggerBufferPtrs.erase(itr)`
abbrev pub erase_at : List LoggerBuffer → ℕ → List LoggerBuffer
erase_at [] i = []
erase_at (x ∷ xs) zero = xs
erase_at (x ∷ xs) (suc i) = x ∷ erase_at xs i

abbrev pub no_rings : List LoggerBuffer → Bool
no_rings [] = true
no_rings (x ∷ xs) = false

module _ {Future : Type 0} where
  -- The end of a turn: whether the loop breaks, the next index, and the state.
  unfoldable pub next_ring : ℕ → Reading Future → Bool × ℕ × Reading Future
  next_ring cur r =
      let cur' = (cur + 1) % 2 ^ 64 % length r.rings in
      (
        cur' == r.last_checked,
        cur',
        record r { is_new_round = if cur' == 0 then true else r.is_new_round },
      )

  -- What the drain of the ring b at the index leaves.
  abbrev pub drained : ℕ → LoggerBuffer → Reading Future → Bool × Draining Future → Reading Future
  drained cur b r (broke, d) = record {
    swap = d.swap;
    rings = set_elem r.rings cur d.buffer;
    last_checked = if broke then cur else r.last_checked;
    is_new_round = if d.buffer.consume_pos == b.consume_pos then r.is_new_round else false;
    consumed = d.consumed;
  }

  -- A ring at which a peek found n bytes at the offset p.
  unfoldable pub read_ring :
      (ℕ → Memory) → ℕ → ℕ → ℕ → LoggerBuffer → Reading Future → Outcome (Reading Future)
  unfolding drain_loop
  read_ring mallocs cur p n b r =
      elim (drain_loop mallocs 2 (n % 2 ^ 32) (bytes b.buffer (p + (n - n % 2 ^ 32)) (n % 2 ^ 32))
        (record { swap = r.swap; buffer = b; consumed = r.consumed })) [
          | Outcome.undefined ↦ Outcome.undefined
          | Outcome.out_of_fuel ↦ Outcome.out_of_fuel
          | Outcome.returns d ↦ Outcome.returns (drained cur b r d)
        ]

  -- A ring at which a peek found no place: it is taken away if its thread is done with it.
  unfoldable pub leave_ring : ℕ → LoggerBuffer → Reading Future → Bool × ℕ × Reading Future
  unfolding next_ring waiting_for_destroy
  leave_ring cur b r =
      let rest = erase_at r.rings cur in
      let gone = record r { rings = rest; last_checked = 0; is_new_round = true } in
      let left = record r {
        rings = rest;
        last_checked =
            if leb cur r.last_checked && ltb 0 r.last_checked
            then r.last_checked - 1
            else r.last_checked;
      } in
      if not (waiting_for_destroy b)
      then next_ring cur r
      else if no_rings rest
      then (true, 0, gone)
      else next_ring ((cur + 2 ^ 64 - 1) % 2 ^ 64) left

  -- One turn at the index.
  unfoldable pub turn : (ℕ → Memory) → ℕ → Reading Future → Outcome (Bool × ℕ × Reading Future)
  unfolding read_ring leave_ring next_ring peek_full_available_buffer
  turn mallocs cur r = elim (get_elem? r.rings cur) [
    | none ↦ Outcome.undefined
    | some b ↦
        let peeked = peek_full_available_buffer b in
        elim peeked.0.0 [
          | none ↦ Outcome.returns (leave_ring cur b r)
          | some p ↦ elim (read_ring mallocs cur p peeked.0.1 peeked.1 r) [
            | Outcome.undefined ↦ Outcome.undefined
            | Outcome.out_of_fuel ↦ Outcome.out_of_fuel
            | Outcome.returns r' ↦ Outcome.returns (next_ring cur r')
          ]
        ]
  ]

  -- `while (!mSwapBuffer.full() && !mThreadLoggerBufferPtrs.empty())`, on fuel.
  unfoldable pub read_rings : (ℕ → Memory) → ℕ → ℕ → Reading Future → Outcome (Reading Future)
  unfolding turn full
  read_rings mallocs zero cur r = Outcome.out_of_fuel
  read_rings mallocs (suc fuel) cur r =
      let rest = λ (t : Bool × ℕ × Reading Future).
        let more = read_rings mallocs fuel t.1 t.2 in if t.0 then Outcome.returns t.2 else more in
      if full r.swap || no_rings r.rings then Outcome.returns r else elim (turn mallocs cur r) [
        | Outcome.undefined ↦ Outcome.undefined
        | Outcome.out_of_fuel ↦ Outcome.out_of_fuel
        | Outcome.returns t ↦ rest t
      ]
