-- ===== src/Nanolog/SwapBuffer/Load.antt =====
-- Loading a message into the blocks of a `SwapBuffer`.
use my_practise.Base.{
  ℕ, zero, suc, ◌+◌, ◌-◌, ◌*◌, ◌≤◌, ◌<◌, ◌≡◌, refl, true, List, [], ◌∷◌, some, length, take, arith,
  Memory, inl, inr, ◌⊎◌, length-append, ◌∙◌, ◌↔◌, ◌^◌,
}
use my_practise.Nanolog.SwapBuffer.{
  SwapBuffer, Block, Outcome, loading_iovec_capacity, default_buffer_capacity_limit,
  swap_buffer_high_water_mark, copy_to_back, copy_message, consume, turn_block, load_loop, account,
  load_buffer_from,
}

copy_to_back-length :
    (bs : List Block) (pos : ℕ) (xs : List ℕ)
    → 0 < length bs
    → (cs : List Block) × (copy_to_back bs pos xs ≡ some cs) × (length cs ≡ length bs)
unfolding copy_to_back
copy_to_back-length [] pos xs h = absurd (omega arith)
copy_to_back-length (b ∷ []) pos xs h = (_, refl, refl)
copy_to_back-length (b ∷ c ∷ bs) pos xs h =
    let (cs, e, l) = copy_to_back-length (c ∷ bs) pos xs (omega arith) in
    (b ∷ cs, rw e, omega arith)

module _ {Future : Type 0} where
  -- There is a block to write to, and the position is inside it or at its end.
  pub record Ready (s : SwapBuffer Future) : Type 0 where
    pub blocks : 0 < length s.loading_buffer_vector
    pub inside : s.cur_loading_pos ≤ loading_iovec_capacity

  -- The offset of the next byte, counted over all blocks.
  abbrev pub position : SwapBuffer Future → ℕ
  position s = length s.loading_buffer_vector * loading_iovec_capacity + s.cur_loading_pos

  -- What the loop has done when it stops.
  pub record Loaded (s : SwapBuffer Future) (msz : ℕ) (t : SwapBuffer Future) : Type 0 where
    pub ready : Ready t
    pub moved : position t ≡ position s + msz
    pub same_size : t.loaded_buffer_size ≡ s.loaded_buffer_size
    pub same_full : t.is_full ≡ s.is_full

  turn_block-Loaded :
      (mallocs : ℕ → Memory) (s : SwapBuffer Future) (rest : ℕ)
      → Ready s
      → Loaded s 0 (turn_block mallocs rest s)
        × ((rest ≡ 0) ⊎ ((turn_block mallocs rest s).cur_loading_pos < loading_iovec_capacity))
  unfolding turn_block
  turn_block-Loaded mallocs s rest h = ground (
    arith,
    length-append s.loading_buffer_vector
        (record { base = mallocs (length s.loading_buffer_vector); len = 0 } ∷ []),
  )

  -- One round, where there is a block to write to.
  load_loop_round :
      (mallocs : ℕ → Memory) (message : List ℕ) (fuel r : ℕ) (s : SwapBuffer Future)
      (blocks : List Block)
      → copy_message message (consume s (suc r)) s ≡ some blocks
      → load_loop mallocs message (suc fuel) (suc r) s
        ≡ load_loop mallocs message fuel (suc r - consume s (suc r)) (
            turn_block mallocs (suc r - consume s (suc r)) (record s {
              loading_buffer_vector = blocks;
              cur_loading_pos = s.cur_loading_pos + consume s (suc r);
            }))
  unfolding load_loop
  load_loop_round mallocs message fuel r s blocks e = rw (e, load_loop)

  -- The round's copy, where the message is long enough.
  copy_message-length :
      (message : List ℕ) (n : ℕ) (s : SwapBuffer Future)
      → 0 < length s.loading_buffer_vector
      → n ≤ length message
      → (cs : List Block) × (copy_message message n s ≡ some cs)
        × (length cs ≡ length s.loading_buffer_vector)
  unfolding copy_message
  copy_message-length message n s h long =
      let (cs, e, l) =
        copy_to_back-length s.loading_buffer_vector s.cur_loading_pos (take n message) h in
      (cs, ground (arith, e, long), l)

  load_loop-Loaded :
      (mallocs : ℕ → Memory) (message : List ℕ) (fuel remaining : ℕ) (s : SwapBuffer Future)
      → Ready s
      → remaining ≤ length message
      → (remaining + 1 < fuel)
        ⊎ ((remaining < fuel) × ((remaining ≡ 0) ⊎ (s.cur_loading_pos < loading_iovec_capacity)))
      → (t : SwapBuffer Future) × (load_loop mallocs message fuel remaining s ≡ Outcome.returns t)
        × Loaded s remaining t
  unfolding load_loop
  load_loop-Loaded mallocs message zero remaining s h long f = absurd (omega arith)
  load_loop-Loaded mallocs message (suc fuel) zero s h long f =
      (s, refl, record { ready = h; moved = omega arith; same_size = refl; same_full = refl })
  load_loop-Loaded mallocs message (suc fuel) (suc r) s h long f =
      let (blocks, e, l) =
        copy_message-length message (consume s (suc r)) s h.blocks (omega arith) in
      let s' : SwapBuffer Future = record s {
        loading_buffer_vector = blocks;
        cur_loading_pos = s.cur_loading_pos + consume s (suc r);
      } in
      let rest = suc r - consume s (suc r) in
      let ready' : Ready s' = record {
        blocks = omega (arith, h.blocks);
        inside = omega (arith, h.inside);
      } in
      let turned = turn_block-Loaded mallocs s' rest ready' in
      let (t, run, loaded) =
        load_loop-Loaded mallocs message fuel rest (turn_block mallocs rest s') turned.0.ready
          (omega arith) (inr (omega arith, turned.1)) in
      (
        t,
        load_loop_round mallocs message fuel r s blocks e ∙ run,
        record {
          ready = loaded.ready;
          moved = omega (arith, loaded.moved, turned.0.moved, l);
          same_size = loaded.same_size ∙ turned.0.same_size;
          same_full = loaded.same_full ∙ turned.0.same_full;
        },
      )

  -- Where there is a block to write to, a message that fits is loaded in the rounds that the model gives the loop: the call
  -- returns its size, the position moves on by as much over the blocks, the count of loaded bytes
  -- grows by as much, and the buffer is full if it was or if the count reaches the high-water mark.
  pub load_buffer_from-ok :
      (mallocs : ℕ → Memory) (message : List ℕ) (msz : ℕ) (s : SwapBuffer Future)
      → Ready s
      → msz ≤ length message
      → msz + s.loaded_buffer_size < default_buffer_capacity_limit
      → (t : SwapBuffer Future) × (load_buffer_from mallocs message msz s
          ≡ Outcome.returns (msz, t))
        × Ready t
        × (position t ≡ position s + msz)
        × (t.loaded_buffer_size ≡ s.loaded_buffer_size + msz)
        × ((t.is_full ≡ true)
            ↔ ((s.is_full ≡ true) ⊎ (swap_buffer_high_water_mark ≤ s.loaded_buffer_size + msz)))
  unfolding load_buffer_from
  load_buffer_from-ok mallocs message msz s h long fits =
      let (t, run, loaded) =
        load_loop-Loaded mallocs message (msz + 2) msz (account msz s)
          (record { blocks = h.blocks; inside = h.inside }) long (inl (omega arith)) in
      (
        t,
        ground (arith, run),
        loaded.ready,
        loaded.moved,
        ground (arith, loaded.same_size),
        ground (arith, loaded.same_full),
      )

  -- A message that does not fit changes nothing and is reported as 0 bytes.
  pub load_buffer_from-full :
      (mallocs : ℕ → Memory) (message : List ℕ) (msz : ℕ) (s : SwapBuffer Future)
      → default_buffer_capacity_limit ≤ msz + s.loaded_buffer_size
      → msz + s.loaded_buffer_size < 2 ^ 64
      → load_buffer_from mallocs message msz s ≡ Outcome.returns (0, s)
  unfolding load_buffer_from
  load_buffer_from-full mallocs message msz s h small = ground arith
