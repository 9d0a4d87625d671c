-- ===== src/Lockfree/Queue/Threads/Ends.antt =====
-- The two writes that change what the queue holds: a node is linked behind the last one, and the head
-- moves to its successor.
use my_practise.Base.{
  ℕ, suc, ◌-◌, ◌≤◌, ◌<◌, ◌≡◌, ◌≢◌, refl, sym, ap, ◌∙◌, subst, Bool, true, Option, some, List, [],
  ◌∷◌, ◌++◌, Bool-cases, ◌⊎◌, inl, inr, arith,
}
use my_practise.Lockfree.Stack.{assign}
use my_practise.Lockfree.Calls.{assign_self, assign-other}
use my_practise.Lockfree.Queue.Threads.Ghosts.{Owner, Ghost, Shape, Later, slice}
use my_practise.Lockfree.Queue.Threads.Shapes.{slice-ext, slice-snoc, not_maker}

-- The node a with the value v behind the last one.
abbrev pub appended : Ghost → ℕ → ℕ → Ghost
appended g a v = record g {
  node_at = assign g.node_at (suc g.last) a;
  value_at = assign g.value_at (suc g.last) v;
  place = assign g.place a (suc g.last);
  last = suc g.last;
  owner = assign g.owner a Owner.nobody;
}

-- The head at its successor, of which the thread t takes the value.
abbrev pub advanced : Ghost → ℕ → Ghost
advanced g t = record g {
  head_at = suc g.head_at;
  owner = assign g.owner (g.node_at (suc g.head_at)) (Owner.taker t);
}

extended : (i n : ℕ) → i ≤ suc n → (i ≤ n) ⊎ (i ≡ suc n)
extended i n h = ground arith

extend :
    (P : ℕ → ℕ → Type 0) (f : ℕ → ℕ) (n a : ℕ)
    → ((i : ℕ) → i ≤ n → P i (f i))
    → P (suc n) a
    → (i : ℕ) → i ≤ suc n
    → P i (assign f (suc n) a i)
extend P f n a old new i h = elim (extended i n h) [
  | inl k ↦ subst (P i) (sym (assign-other f (suc n) a i (omega arith))) (old i k)
  | inr e ↦
      subst (λ j. P j (assign f (suc n) a j)) (sym e)
        (subst (P (suc n)) (sym (assign_self f (suc n) a)) new)
]

module _ (g : Ghost) (head tail : ℕ) (next : ℕ → ℕ) (value : ℕ → Option ℕ) (used : ℕ → Bool)
    (contents : List ℕ) (s : Shape g head tail next value used contents) where
  distinct : (i j : ℕ) → i ≤ g.last → j ≤ g.last → i ≢ j → g.node_at i ≢ g.node_at j
  distinct i j h k n e = n (sym (s.placed i h) ∙ ap g.place e ∙ s.placed j k)

  module _ (t a v : ℕ) (o : g.owner a ≡ Owner.maker t) (val : value a ≡ some v) (end : next a ≡ 0)
      (real : a ≢ 0) where
    apart : (i : ℕ) → i ≤ g.last → g.node_at i ≢ a
    apart i h = not_maker g head tail next value used contents s t a i o h

    made_used : used a ≡ true
    made_used = elim (Bool-cases (used a)) [
      | inl e ↦ e
      | inr e ↦ absurd (ground (arith, o, s.fresh a e))
    ]

    old : (i : ℕ) → i ≤ g.last → assign g.node_at (suc g.last) a i ≡ g.node_at i
    old i h = assign-other g.node_at (suc g.last) a i (omega arith)

    append_linked :
        (i : ℕ)
        → i < suc g.last
        → assign next (g.node_at g.last) a (assign g.node_at (suc g.last) a i)
          ≡ assign g.node_at (suc g.last) a (suc i)
    append_linked i h = elim (extended (suc i) g.last h) [
      | inl k ↦
          ap (assign next (g.node_at g.last) a) (old i (omega arith))
          ∙ assign-other next (g.node_at g.last) a (g.node_at i)
              (distinct i g.last (omega arith) (omega arith) (omega arith))
          ∙ s.linked i k
          ∙ sym (old (suc i) k)
      | inr e ↦
          let l : i ≡ g.last = omega arith in
          ap (assign next (g.node_at g.last) a) (old i (omega arith) ∙ ap g.node_at l)
          ∙ assign_self next (g.node_at g.last) a
          ∙ sym (assign_self g.node_at (suc g.last) a)
          ∙ ap (assign g.node_at (suc g.last) a) (sym e)
    ]

    append_has :
        contents ++ v ∷ []
        ≡ slice (assign g.value_at (suc g.last) v) (suc g.head_at) (suc g.last - g.head_at)
    append_has =
        let p = s.head_tail in
        let q = s.tail_last in
        let f = assign g.value_at (suc g.last) v in
        let n = g.last - g.head_at in
        ap (λ xs. xs ++ v ∷ [])
          (s.has
            ∙ slice-ext g.value_at f (suc g.head_at) n
                (λ j h. sym (assign-other g.value_at (suc g.last) v j (omega arith))))
        ∙ ap (λ x. slice f (suc g.head_at) n ++ x ∷ [])
            (sym (ap f (omega arith) ∙ assign_self g.value_at (suc g.last) v))
        ∙ sym (slice-snoc f (suc g.head_at) n)
        ∙ ap (slice f (suc g.head_at)) (omega arith)

    pub append-Shape :
        Shape
          (appended g a v)
          head
          tail
          (assign next (g.node_at g.last) a)
          value
          used
          (contents ++ v ∷ [])
    append-Shape =
        let p = s.head_tail in
        let q = s.tail_last in
        record {
          linked = append_linked;
          ended =
              ap (assign next (g.node_at g.last) a) (assign_self g.node_at (suc g.last) a)
              ∙ assign-other next (g.node_at g.last) a a (λ e. apart g.last (omega arith) (sym e))
              ∙ end;
          nonzero = extend (λ i x. x ≢ 0) g.node_at g.last a s.nonzero real;
          placed =
              extend (λ i x. assign g.place a (suc g.last) x ≡ i) g.node_at g.last a
                (λ i h.
                  assign-other g.place a (suc g.last) (g.node_at i) (apart i h) ∙ s.placed i h)
                (assign_self g.place a (suc g.last));
          head_is = s.head_is ∙ sym (old g.head_at (omega arith));
          tail_is = s.tail_is ∙ sym (old g.tail_at (omega arith));
          head_tail = p;
          tail_last = omega arith;
          holds = λ i h k.
              extend (λ j x. g.head_at < j → value x ≡ some (assign g.value_at (suc g.last) v j))
                g.node_at g.last a
                (λ j l m.
                  s.holds j m l
                  ∙ ap some (sym (assign-other g.value_at (suc g.last) v j (omega arith))))
                (λ m. val ∙ ap some (sym (assign_self g.value_at (suc g.last) v))) i k h;
          is_used = extend (λ i x. used x ≡ true) g.node_at g.last a s.is_used made_used;
          unclaimed = λ i h k.
              extend (λ j x. g.head_at < j → assign g.owner a Owner.nobody x ≡ Owner.nobody)
                g.node_at g.last a
                (λ j l m.
                  assign-other g.owner a Owner.nobody (g.node_at j) (apart j l) ∙ s.unclaimed j m l)
                (λ m. assign_self g.owner a Owner.nobody) i k h;
          unmade = λ i u h.
              extend (λ j x. assign g.owner a Owner.nobody x ≢ Owner.maker u) g.node_at g.last a
                (λ j l e.
                  s.unmade j u l
                    (sym (assign-other g.owner a Owner.nobody (g.node_at j) (apart j l)) ∙ e))
                (λ e. ground (arith, e, assign_self g.owner a Owner.nobody)) i h;
          fresh = λ b h.
              let d : b ≢ a = λ e. cc (h, ap used e, made_used) in
              assign-other g.owner a Owner.nobody b d ∙ s.fresh b h;
          has = append_has;
        }

    pub append-Later :
        Later t g next value (appended g a v) (assign next (g.node_at g.last) a) value
    append-Later = record {
      longer = omega arith;
      head_on = omega arith;
      tail_on = omega arith;
      nodes = old;
      making = λ u b n h.
          let d : b ≢ a = λ e. n (ground (arith, o, h, ap g.owner e)) in
          let l : b ≢ g.node_at g.last =
            λ e. s.unmade g.last u (omega arith) (sym (ap g.owner e) ∙ h) in
          (
            assign-other g.owner a Owner.nobody b d ∙ h,
            assign-other next (g.node_at g.last) a b l,
            refl,
          );
      taking = λ u b n h.
          let d : b ≢ a = λ e. ground (arith, o, h, ap g.owner e) in
          (assign-other g.owner a Owner.nobody b d ∙ h, refl);
    }

  module _ (t : ℕ) (behind : g.head_at < g.tail_at) where
    after : ℕ
    after = g.node_at (suc g.head_at)

    pub advance_contents :
        contents
        ≡ g.value_at (suc g.head_at)
          ∷ slice g.value_at (suc (suc g.head_at)) (g.last - suc g.head_at)
    unfolding slice
    advance_contents =
        let q = s.tail_last in
        s.has
        ∙ ap (slice g.value_at (suc g.head_at))
            (let e : g.last - g.head_at ≡ suc (g.last - suc g.head_at) = omega arith in e)

    pub advance-Shape :
        Shape
          (advanced g t)
          (g.node_at (suc g.head_at))
          tail
          next
          value
          used
          (slice g.value_at (suc (suc g.head_at)) (g.last - suc g.head_at))
    advance-Shape =
        let q = s.tail_last in
        record {
          linked = s.linked;
          ended = s.ended;
          nonzero = s.nonzero;
          placed = s.placed;
          head_is = refl;
          tail_is = s.tail_is;
          head_tail = behind;
          tail_last = q;
          holds = λ i h k. s.holds i (omega arith) k;
          is_used = s.is_used;
          unclaimed = λ i h k.
              assign-other g.owner (g.node_at (suc g.head_at)) (Owner.taker t) (g.node_at i)
                (distinct i (suc g.head_at) k (omega arith) (omega arith))
              ∙ s.unclaimed i (omega arith) k;
          unmade = λ i u h e.
              let f = assign g.owner (g.node_at (suc g.head_at)) (Owner.taker t) in
              let d : g.node_at i ≢ g.node_at (suc g.head_at) = λ p. ground (
                arith,
                e,
                ap f p,
                assign_self g.owner (g.node_at (suc g.head_at)) (Owner.taker t),
              ) in
              s.unmade i u h (
                sym
                  (assign-other g.owner (g.node_at (suc g.head_at)) (Owner.taker t) (g.node_at i) d)
                ∙ e);
          fresh = λ b h.
              let d : b ≢ g.node_at (suc g.head_at) =
                λ e. cc (h, ap used e, s.is_used (suc g.head_at) (omega arith)) in
              assign-other g.owner (g.node_at (suc g.head_at)) (Owner.taker t) b d ∙ s.fresh b h;
          has = refl;
        }

    pub advance-Later : Later t g next value (advanced g t) next value
    advance-Later =
        let q = s.tail_last in
        let free = s.unclaimed (suc g.head_at) (omega arith) (omega arith) in
        record {
          longer = omega arith;
          head_on = omega arith;
          tail_on = omega arith;
          nodes = λ i h. refl;
          making = λ u b n h.
              let d : b ≢ g.node_at (suc g.head_at) = λ e. ground (arith, h, ap g.owner e, free) in
              (
                assign-other g.owner (g.node_at (suc g.head_at)) (Owner.taker t) b d ∙ h,
                refl,
                refl,
              );
          taking = λ u b n h.
              let d : b ≢ g.node_at (suc g.head_at) = λ e. ground (arith, h, ap g.owner e, free) in
              (assign-other g.owner (g.node_at (suc g.head_at)) (Owner.taker t) b d ∙ h, refl);
        }
