-- ===== src/Nanolog/SwapBuffer/Flush.antt =====
-- What loads and flushes can do to a `SwapBuffer` from its construction on.
use my_practise.Base.{
  subst, ◌%◌, ◌^◌, ◌≤◌, ◌⊎◌, Bool-cases, ltb, ℕ, zero, suc, ◌+◌, ◌<◌, ◌≡◌, refl, List, [], ◌∷◌,
  Option, arith, Memory, inl, inr,
}
use my_practise.Nanolog.SwapBuffer.{
  SwapBuffer, Block, Outcome, default_buffer_capacity_limit, make, account, load_buffer_from,
  aio_flush,
}

undefined-ne-returns {ℓ} : {A : Type ℓ} {a : A} → ¬ (Outcome.undefined ≡ Outcome.returns a)
undefined-ne-returns e = cc

returns_inj {ℓ} : {A : Type ℓ} {a b : A} → Outcome.returns a ≡ Outcome.returns b → a ≡ b
returns_inj e = cc

-- What the IO thread does to its buffer.
pub data Op (Future : Type 0) : Type 0 where
  load : (ℕ → Memory) → List ℕ → ℕ → Op Future
  flush : (List Block → Option Future) → Op Future

module _ {Future : Type 0} where
  unfoldable pub run : List (Op Future) → SwapBuffer Future → Outcome (SwapBuffer Future)
  run [] s = Outcome.returns s
  run (Op.load mallocs message msz ∷ ops) s = elim (load_buffer_from mallocs message msz s) [
    | Outcome.returns (n, s') ↦ run ops s'
    | Outcome.undefined ↦ Outcome.undefined
    | Outcome.out_of_fuel ↦ Outcome.out_of_fuel
  ]
  run (Op.flush service ∷ ops) s = run ops (aio_flush service s).1

  -- Nothing is loaded, and there is no block to load into.
  pub record Blank (s : SwapBuffer Future) : Type 0 where
    pub no_block : s.loading_buffer_vector ≡ []
    pub no_byte : s.loaded_buffer_size ≡ 0

  load-Blank :
      (mallocs : ℕ → Memory) (message : List ℕ) (msz : ℕ) (s : SwapBuffer Future)
      → Blank s
      → ((0 < msz)
          × (msz % 2 ^ 64 < default_buffer_capacity_limit)
          × (load_buffer_from mallocs message msz s ≡ Outcome.undefined))
        ⊎ (((msz ≡ 0) ⊎ (default_buffer_capacity_limit ≤ msz % 2 ^ 64))
            × ((t : SwapBuffer Future) × (load_buffer_from mallocs message msz s
                  ≡ Outcome.returns (0, t))
                × Blank t))
  unfolding load_buffer_from
  load-Blank mallocs message zero s b = inr (
    inl refl,
    (
      account 0 s,
      ground (arith, b.no_byte),
      record { no_block = b.no_block; no_byte = ground (arith, b.no_byte) },
    ),
  )
  load-Blank mallocs message (suc m) s b =
      elim (Bool-cases
        (ltb ((suc m + s.loaded_buffer_size) % 2 ^ 64) default_buffer_capacity_limit)) [
          | inl fits ↦
              inl (omega arith, ground (arith, fits, b.no_byte), ground (arith, fits, b.no_block))
          | inr large ↦ inr (inr (ground (arith, large, b.no_byte)), (s, ground (arith, large), b))
        ]

  run-Blank :
      (ops : List (Op Future)) (s t : SwapBuffer Future)
      → Blank s
      → run ops s ≡ Outcome.returns t
      → Blank t
  unfolding run aio_flush
  run-Blank [] s t b e = subst Blank (returns_inj e) b
  run-Blank (Op.load mallocs message msz ∷ ops) s t b e =
      elim (load-Blank mallocs message msz s b) [
        | inl (pos, fits, u) ↦ absurd (undefined-ne-returns (rw (u, run) at e))
        | inr (why, (s', u, b')) ↦ run-Blank ops s' t b' (rw (u, run) at e)
      ]
  run-Blank (Op.flush service ∷ ops) s t b e =
      run-Blank ops (aio_flush service s).1 t (record { no_block = refl; no_byte = b.no_byte }) e

  -- Whatever loads and flushes have returned on a buffer that was constructed, it holds no byte and
  -- no block: the next message of at least one byte that is below the limit runs into `back()` of an
  -- empty vector, and any other message is reported as 0 bytes and loads nothing.
  pub run-loads_nothing :
      (ops : List (Op Future)) (s : SwapBuffer Future) (mallocs : ℕ → Memory) (message : List ℕ)
      (msz : ℕ)
      → run ops make ≡ Outcome.returns s
      → msz < 2 ^ 64
      → ((0 < msz)
          × (msz < default_buffer_capacity_limit)
          × (load_buffer_from mallocs message msz s ≡ Outcome.undefined))
        ⊎ (((msz ≡ 0) ⊎ (default_buffer_capacity_limit ≤ msz))
            × ((t : SwapBuffer Future) × (load_buffer_from mallocs message msz s
                  ≡ Outcome.returns (0, t))
                × Blank t))
  unfolding make
  run-loads_nothing ops s mallocs message msz e small =
      let b = run-Blank ops make s (record { no_block = refl; no_byte = refl }) e in
      elim (load-Blank mallocs message msz s b) [
        | inl (pos, fits, u) ↦ inl (pos, omega arith, u)
        | inr (inl z, r) ↦ inr (inl z, r)
        | inr (inr large, r) ↦ inr (inr (omega arith), r)
      ]
