-- ===== src/Lockfree/Queue/Threads/Shapes.antt =====
-- What each write to shared memory leaves of the order of the nodes.
use my_practise.Base.{
  ℕ, zero, suc, ◌+◌, ◌≤◌, ◌<◌, ◌≡◌, ◌≢◌, refl, sym, ap, ◌∙◌, Bool, true, false, Option, none, some,
  List, [], ◌∷◌, ◌++◌, arith,
}
use my_practise.Lockfree.Stack.{assign}
use my_practise.Lockfree.Calls.{assign_self, assign-other}
use my_practise.Lockfree.Queue.Threads.Ghosts.{Owner, Ghost, Shape, Later, slice}

pub slice-ext :
    (f h : ℕ → ℕ) (i n : ℕ) → ((j : ℕ) → j < i + n → f j ≡ h j) → slice f i n ≡ slice h i n
unfolding slice
slice-ext f h i zero e = refl
slice-ext f h i (suc n) e =
    rw (e i (omega arith))
      (ap (λ xs. h i ∷ xs) (slice-ext f h (suc i) n (λ j k. e j (omega arith))))

pub slice-snoc : (f : ℕ → ℕ) (i n : ℕ) → slice f i (suc n) ≡ slice f i n ++ f (i + n) ∷ []
unfolding slice
slice-snoc f i zero = ap (λ x. f x ∷ []) (omega arith)
slice-snoc f i (suc n) =
    ap (λ xs. f i ∷ xs)
      (slice-snoc f (suc i) n ∙ ap (λ x. slice f (suc i) n ++ f x ∷ []) (omega arith))

module _ (g : Ghost) (head tail : ℕ) (next : ℕ → ℕ) (value : ℕ → Option ℕ) (used : ℕ → Bool)
    (contents : List ℕ) (s : Shape g head tail next value used contents) where
  pub not_maker : (t a i : ℕ) → g.owner a ≡ Owner.maker t → i ≤ g.last → g.node_at i ≢ a
  not_maker t a i o h e = s.unmade i t h (ap g.owner e ∙ o)

  -- The constructor of a node that a thread makes.
  pub start-Shape :
      (t a v : ℕ)
      → g.owner a ≡ Owner.maker t
      → Shape g head tail (assign next a 0) (assign value a (some v)) used contents
  start-Shape t a v o = record {
    linked =
        λ i h. assign-other next a 0 (g.node_at i) (not_maker t a i o (omega arith)) ∙ s.linked i h;
    ended =
        assign-other next a 0 (g.node_at g.last) (not_maker t a g.last o (omega arith)) ∙ s.ended;
    nonzero = s.nonzero;
    placed = s.placed;
    head_is = s.head_is;
    tail_is = s.tail_is;
    head_tail = s.head_tail;
    tail_last = s.tail_last;
    holds =
        λ i h k. assign-other value a (some v) (g.node_at i) (not_maker t a i o k) ∙ s.holds i h k;
    is_used = s.is_used;
    unclaimed = s.unclaimed;
    unmade = s.unmade;
    fresh = s.fresh;
    has = s.has;
  }

  pub start-Later :
      (t a v : ℕ)
      → g.owner a ≡ Owner.maker t
      → Later t g next value g (assign next a 0) (assign value a (some v))
  start-Later t a v o = record {
    longer = omega arith;
    head_on = omega arith;
    tail_on = omega arith;
    nodes = λ i h. refl;
    making = λ u b n h.
        let d : b ≢ a = λ e. n (ground (arith, o, h, ap g.owner e)) in
        (h, assign-other next a 0 b d, assign-other value a (some v) b d);
    taking = λ u b n h.
        let d : b ≢ a = λ e. ground (arith, o, h, ap g.owner e) in
        (h, assign-other value a (some v) b d);
  }

  -- An address that `new` has not given out.
  pub call-Shape :
      (t a : ℕ)
      → used a ≡ false
      → Shape
          (record g { owner = assign g.owner a (Owner.maker t) })
          head
          tail
          next
          value
          (assign used a true)
          contents
  call-Shape t a f =
      let apart : (i : ℕ) → i ≤ g.last → g.node_at i ≢ a =
        λ i h e. ground (arith, f, ap used e, s.is_used i h) in
      record {
        linked = s.linked;
        ended = s.ended;
        nonzero = s.nonzero;
        placed = s.placed;
        head_is = s.head_is;
        tail_is = s.tail_is;
        head_tail = s.head_tail;
        tail_last = s.tail_last;
        holds = s.holds;
        is_used = λ i h. assign-other used a true (g.node_at i) (apart i h) ∙ s.is_used i h;
        unclaimed = λ i h k.
            assign-other g.owner a (Owner.maker t) (g.node_at i) (apart i k) ∙ s.unclaimed i h k;
        unmade = λ i u h e.
            s.unmade i u h
              (sym (assign-other g.owner a (Owner.maker t) (g.node_at i) (apart i h)) ∙ e);
        fresh = λ b h.
            let d : b ≢ a = λ e. cc (h, ap (assign used a true) e, assign_self used a true) in
            assign-other g.owner a (Owner.maker t) b d
            ∙ s.fresh b (sym (assign-other used a true b d) ∙ h);
        has = s.has;
      }

  pub call-Later :
      (t a : ℕ)
      → used a ≡ false
      → Later t g next value (record g { owner = assign g.owner a (Owner.maker t) }) next value
  call-Later t a f = record {
    longer = omega arith;
    head_on = omega arith;
    tail_on = omega arith;
    nodes = λ i h. refl;
    making = λ u b n h.
        let d : b ≢ a = λ e. ground (arith, h, ap g.owner e, s.fresh a f) in
        (assign-other g.owner a (Owner.maker t) b d ∙ h, refl, refl);
    taking = λ u b n h.
        let d : b ≢ a = λ e. ground (arith, h, ap g.owner e, s.fresh a f) in
        (assign-other g.owner a (Owner.maker t) b d ∙ h, refl);
  }

  -- The tail moves to its successor.
  pub tail-Shape :
      g.tail_at < g.last
      → Shape
          (record g { tail_at = suc g.tail_at })
          head
          (g.node_at (suc g.tail_at))
          next
          value
          used
          contents
  tail-Shape h = record {
    linked = s.linked;
    ended = s.ended;
    nonzero = s.nonzero;
    placed = s.placed;
    head_is = s.head_is;
    tail_is = refl;
    head_tail = let p = s.head_tail in omega arith;
    tail_last = h;
    holds = s.holds;
    is_used = s.is_used;
    unclaimed = s.unclaimed;
    unmade = s.unmade;
    fresh = s.fresh;
    has = s.has;
  }

  pub tail-Later : (t : ℕ) → Later t g next value (record g { tail_at = suc g.tail_at }) next value
  tail-Later t = record {
    longer = omega arith;
    head_on = omega arith;
    tail_on = omega arith;
    nodes = λ i h. refl;
    making = λ u b n h. (h, refl, refl);
    taking = λ u b n h. (h, refl);
  }

  -- A value is taken out of a node that left the queue.
  pub take-Shape :
      (t a : ℕ)
      → g.owner a ≡ Owner.taker t
      → Shape g head tail next (assign value a none) used contents
  take-Shape t a o = record {
    linked = s.linked;
    ended = s.ended;
    nonzero = s.nonzero;
    placed = s.placed;
    head_is = s.head_is;
    tail_is = s.tail_is;
    head_tail = s.head_tail;
    tail_last = s.tail_last;
    holds = λ i h k.
        let d : g.node_at i ≢ a = λ e. ground (arith, o, ap g.owner e, s.unclaimed i h k) in
        assign-other value a none (g.node_at i) d ∙ s.holds i h k;
    is_used = s.is_used;
    unclaimed = s.unclaimed;
    unmade = s.unmade;
    fresh = s.fresh;
    has = s.has;
  }

  pub take-Later :
      (t a : ℕ) → g.owner a ≡ Owner.taker t → Later t g next value g next (assign value a none)
  take-Later t a o = record {
    longer = omega arith;
    head_on = omega arith;
    tail_on = omega arith;
    nodes = λ i h. refl;
    making = λ u b n h.
        let d : b ≢ a = λ e. ground (arith, o, h, ap g.owner e) in
        (h, refl, assign-other value a none b d);
    taking = λ u b n h.
        let d : b ≢ a = λ e. n (ground (arith, o, h, ap g.owner e)) in
        (h, assign-other value a none b d);
  }
