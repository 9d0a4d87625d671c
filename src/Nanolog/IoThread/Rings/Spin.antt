-- ===== src/Nanolog/IoThread/Rings/Spin.antt =====
-- Two rings whose data does not fit the swap buffer keep the loop over the rings running.
use my_practise.Base.{
  ℕ, zero, suc, ◌+◌, ◌-◌, ◌%◌, ◌^◌, ◌≤◌, ◌<◌, ◌≡◌, refl, ap, ◌∙◌, Bool, true, false, [], ◌∷◌, some,
  eq→==, bytes, set_elem, Memory, arith,
}
use native.Mathlib.Nat.{mod-eq_of_lt}
use my_practise.Nanolog.LoggerBuffer.{LoggerBuffer, peek_full_available_buffer}
use my_practise.Nanolog.SwapBuffer.{SwapBuffer, Outcome, full, default_buffer_capacity_limit}
use my_practise.Nanolog.IoThread.{Draining, drain_loop}
use my_practise.Nanolog.IoThread.Drain.{drain-none}
use my_practise.Nanolog.IoThread.Rings.{Reading, read_ring, next_ring, turn, read_rings, no_rings}

module _ {Future : Type 0} where
  -- A peek finds bytes in the ring that do not fit the swap buffer, and leaves the ring as it is.
  pub record Heavy (s : SwapBuffer Future) (b : LoggerBuffer) : Type 0 where
    pub place : ℕ
    pub count : ℕ
    pub peeks : peek_full_available_buffer b ≡ ((some place, count), b)
    pub small : count < 2 ^ 32
    pub unfit : default_buffer_capacity_limit ≤ count + s.loaded_buffer_size

  read_ring-Heavy :
      (mallocs : ℕ → Memory) (cur : ℕ) (b : LoggerBuffer) (r : Reading Future) (h : Heavy r.swap b)
      → r.swap.loaded_buffer_size < default_buffer_capacity_limit
      → read_ring mallocs cur h.place h.count b r
        ≡ Outcome.returns (record r { rings = set_elem r.rings cur b; last_checked = cur })
  unfolding read_ring
  read_ring-Heavy mallocs cur b r h l =
      let n = h.count % 2 ^ 32 in
      let e : n ≡ h.count = mod-eq_of_lt h.small in
      let fits = h.unfit in
      let d : Draining Future = record { swap = r.swap; buffer = b; consumed = r.consumed } in
      let message = bytes b.buffer (h.place + (h.count - n)) n in
      let none_read : drain_loop mallocs 2 n message d ≡ Outcome.returns (true, d) =
        drain-none mallocs 1 n message d (omega arith) (omega arith) (omega arith) in
      rw (read_ring, none_read) (rw (eq→== b.consume_pos b.consume_pos refl) refl)

  -- Two rings in the hands of the loop.
  abbrev pub two_rings :
      SwapBuffer Future → LoggerBuffer → LoggerBuffer → ℕ → Bool → ℕ → Reading Future
  two_rings s a b last flag consumed = record {
    swap = s;
    rings = a ∷ b ∷ [];
    last_checked = last;
    is_new_round = flag;
    consumed = consumed;
  }

  turn-first :
      (mallocs : ℕ → Memory) (s : SwapBuffer Future) (a b : LoggerBuffer) (last : ℕ) (flag : Bool)
      (consumed : ℕ)
      → Heavy s a
      → s.loaded_buffer_size < default_buffer_capacity_limit
      → turn mallocs 0 (two_rings s a b last flag consumed)
        ≡ Outcome.returns (false, 1, two_rings s a b 0 flag consumed)
  unfolding turn next_ring
  turn-first mallocs s a b last flag consumed h l =
      let r = two_rings s a b last flag consumed in
      let e =
        ap (λ x. read_ring mallocs 0 h.place x.0.1 x.1 r) h.peeks
        ∙ read_ring-Heavy mallocs 0 a r h l in
      rw (turn, h.peeks) (rw e refl)

  turn-second :
      (mallocs : ℕ → Memory) (s : SwapBuffer Future) (a b : LoggerBuffer) (last : ℕ) (flag : Bool)
      (consumed : ℕ)
      → Heavy s b
      → s.loaded_buffer_size < default_buffer_capacity_limit
      → turn mallocs 1 (two_rings s a b last flag consumed)
        ≡ Outcome.returns (false, 0, two_rings s a b 1 true consumed)
  unfolding turn next_ring
  turn-second mallocs s a b last flag consumed h l =
      let r = two_rings s a b last flag consumed in
      let e =
        ap (λ x. read_ring mallocs 1 h.place x.0.1 x.1 r) h.peeks
        ∙ read_ring-Heavy mallocs 1 b r h l in
      rw (turn, h.peeks) (rw e refl)

  read_rings-more :
      (mallocs : ℕ → Memory) (fuel cur cur' : ℕ) (r r' : Reading Future)
      → full r.swap ≡ false
      → no_rings r.rings ≡ false
      → turn mallocs cur r ≡ Outcome.returns (false, cur', r')
      → read_rings mallocs (suc fuel) cur r ≡ read_rings mallocs fuel cur' r'
  unfolding read_rings
  read_rings-more mallocs fuel cur cur' r r' f g e = rw (read_rings, f, g, e) refl

  spin-both :
      (mallocs : ℕ → Memory) (fuel : ℕ) (s : SwapBuffer Future) (a b : LoggerBuffer) (last : ℕ)
      (flag : Bool) (consumed : ℕ)
      → full s ≡ false
      → s.loaded_buffer_size < default_buffer_capacity_limit
      → Heavy s a
      → Heavy s b
      → (read_rings mallocs fuel 0 (two_rings s a b last flag consumed) ≡ Outcome.out_of_fuel)
        × (read_rings mallocs fuel 1 (two_rings s a b last flag consumed) ≡ Outcome.out_of_fuel)
  unfolding read_rings
  spin-both mallocs zero s a b last flag consumed f l h k = (refl, refl)
  spin-both mallocs (suc fuel) s a b last flag consumed f l h k = (
    read_rings-more mallocs fuel 0 1 (two_rings s a b last flag consumed)
          (two_rings s a b 0 flag consumed) f refl (turn-first mallocs s a b last flag consumed h l)
        ∙ (spin-both mallocs fuel s a b 0 flag consumed f l h k).1,
    read_rings-more mallocs fuel 1 0 (two_rings s a b last flag consumed)
          (two_rings s a b 1 true consumed) f refl
          (turn-second mallocs s a b last flag consumed k l)
        ∙ (spin-both mallocs fuel s a b 1 true consumed f l h k).0,
  )

  -- With a swap buffer below its limit that is not called full, and two rings in each of which a
  -- peek finds less than 2^32 bytes that do not fit, and finds them again, the loop over the
  -- rings, from the first ring on, does not end within any fuel, whatever index was last checked.
  pub read_rings-spin :
      (mallocs : ℕ → Memory) (fuel : ℕ) (s : SwapBuffer Future) (a b : LoggerBuffer) (last : ℕ)
      (flag : Bool) (consumed : ℕ)
      → full s ≡ false
      → s.loaded_buffer_size < default_buffer_capacity_limit
      → Heavy s a
      → Heavy s b
      → read_rings mallocs fuel 0 (two_rings s a b last flag consumed) ≡ Outcome.out_of_fuel
  read_rings-spin mallocs fuel s a b last flag consumed f l h k =
      (spin-both mallocs fuel s a b last flag consumed f l h k).0
