-- ===== src/Nanolog/LoggerBuffer/Pending.antt =====
-- The bytes of a `LoggerBuffer` that are committed and not yet consumed, oldest first, and how the
-- operations of Logger.hpp change them.
use my_practise.Base.{
  ℕ, ◌+◌, ◌-◌, ◌≤◌, ◌<◌, ◌≡◌, refl, sym, ◌∙◌, ap, ap₂, ◌⊎◌, inl, inr, List, ◌++◌, length,
  append-nil, append_assoc, ltb, lt→ltb, ge→ltb, if◌then◌else◌, arith, store, bytes, bytes-add,
  bytes-store_apart, Memory,
}
use my_practise.Nanolog.LoggerBuffer.{LoggerBuffer}

abbrev pub Wrapped : LoggerBuffer → Type 0
Wrapped b = b.produce_pos < b.consume_pos

-- The ring as its four coordinates: contents, consumer, producer, end of the data.
abbrev pub window : Memory → ℕ → ℕ → ℕ → List ℕ
window m c p e = if ltb p c then bytes m c (e - c) ++ bytes m 0 p else bytes m c (p - c)

abbrev pub pending : LoggerBuffer → List ℕ
pending b = window b.buffer b.consume_pos b.produce_pos b.buffer_data_end

module _ (m : Memory) where
  -- The end of the data matters only while the producer is behind the consumer.
  pub window_straight : (c p e : ℕ) → c ≤ p → window m c p e ≡ bytes m c (p - c)
  window_straight c p e h = rw (ge→ltb p c h)

  pub window_wrapped : (c p e : ℕ) → p < c → window m c p e ≡ bytes m c (e - c) ++ bytes m 0 p
  window_wrapped c p e h = rw (lt→ltb p c h)

  -- The producer starts again at the front: what lies before `p` is now closed by `e`.
  pub window-turn : (c p e : ℕ) → c ≤ p → 0 < c → window m c 0 p ≡ window m c p e
  unfolding bytes
  window-turn c p e h pos =
      window_wrapped c 0 p pos ∙ append-nil (bytes m c (p - c)) ∙ sym (window_straight c p e h)

  -- The consumer has read to the end of the data, and starts again at the front.
  pub window-rewind : (c p e : ℕ) → p < c → e ≤ c → window m 0 p e ≡ window m c p e
  unfolding bytes
  window-rewind c p e h done =
      let spent : e - c ≡ 0 = omega arith in
      let whole : p - 0 ≡ p = omega arith in
      rw (window_straight 0 p e (omega arith), window_wrapped c p e h, spent, whole)

  -- Committing `n` bytes behind the producer appends them.
  pub window-commit :
      (c p e n : ℕ)
      → ((p < c) × (p + n < c)) ⊎ (c ≤ p)
      → window m c (p + n) e ≡ window m c p e ++ bytes m p n
  window-commit c p e n (inl h) =
      window_wrapped c (p + n) e h.1
      ∙ ap (λ r. bytes m c (e - c) ++ r) (bytes-add m 0 p n (p + n) p refl (omega arith))
      ∙ sym (append_assoc (bytes m c (e - c)) (bytes m 0 p) (bytes m p n))
      ∙ ap (λ r. r ++ bytes m p n) (sym (window_wrapped c p e h.0))
  window-commit c p e n (inr h) =
      window_straight c (p + n) e (omega arith)
      ∙ bytes-add m c (p - c) n (p + n - c) p (omega arith) (omega arith)
      ∙ ap (λ r. r ++ bytes m p n) (sym (window_straight c p e h))

  -- Consuming `n` of the bytes in front splits them off.
  pub window-consume :
      (c p e n : ℕ)
      → ((p < c) × (c + n ≤ e)) ⊎ ((c ≤ p) × (c + n ≤ p))
      → window m c p e ≡ bytes m c n ++ window m (c + n) p e
  window-consume c p e n (inl h) =
      window_wrapped c p e h.0
      ∙ ap (λ r. r ++ bytes m 0 p)
          (bytes-add m c n (e - (c + n)) (e - c) (c + n) (omega arith) refl)
      ∙ append_assoc (bytes m c n) (bytes m (c + n) (e - (c + n))) (bytes m 0 p)
      ∙ ap (λ r. bytes m c n ++ r) (sym (window_wrapped (c + n) p e (omega arith)))
  window-consume c p e n (inr h) =
      window_straight c p e h.0
      ∙ bytes-add m c n (p - (c + n)) (p - c) (c + n) (omega arith) refl
      ∙ ap (λ r. bytes m c n ++ r) (sym (window_straight (c + n) p e (omega arith)))

  -- Filling the free block behind the producer leaves the committed bytes alone.
  pub window-store :
      (c p e n : ℕ) (xs : List ℕ)
      → length xs ≤ n
      → ((p < c) × (p + n < c)) ⊎ (c ≤ p)
      → window (store m p xs) c p e ≡ window m c p e
  window-store c p e n xs fits (inl h) = rw (lt→ltb p c h.0) (
      ap₂ ◌++◌ (bytes-store_apart m p xs c (e - c) (inr (omega arith)))
        (bytes-store_apart m p xs 0 p (inl (omega arith))))
  window-store c p e n xs fits (inr h) =
      rw (ge→ltb p c h) (bytes-store_apart m p xs c (p - c) (inl (omega arith)))
