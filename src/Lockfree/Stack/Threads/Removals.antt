-- ===== src/Lockfree/Stack/Threads/Removals.antt =====
-- What the move of the head to its successor, and the taking of the value, leave of the chain.
use my_practise.Base.{
  ℕ, ◌≡◌, ◌≢◌, refl, sym, ap, ◌∙◌, subst, Bool, Option, none, some, List, ◌∷◌, inl, inr, ◌==◌,
  Bool-cases, ==→eq, ==→ne, arith,
}
use my_practise.Lockfree.Calls.{assign_self, assign-other}
use my_practise.Lockfree.Stack.{assign}
use my_practise.Lockfree.Stack.Chain.{Cells, Chain, Chain-clear}
use my_practise.Lockfree.Stack.Threads.Ghosts.{Gone, Owner, Ghost, Members, values, Shape, Later}
use my_practise.Lockfree.Stack.Threads.Shapes.{Members-Apart, Members-assign, Chain-link}

module _ (g : Ghost) (head : ℕ) (next : ℕ → ℕ) (value : ℕ → Option ℕ) (used : ℕ → Bool)
    (contents : List ℕ) (s : Shape g head next value used contents) where
  -- The head moves from its node to the successor.
  module _ (p t a v : ℕ) (xs : Cells) (line : g.line ≡ (a, v) ∷ xs) where
    chain : Chain next value head ((a, v) ∷ xs)
    chain = subst (Chain next value head) line s.chain

    members : Members g.owner ((a, v) ∷ xs)
    members = subst (Members g.owner) line s.members

    pub pop-Shape :
        Shape
          (record { line = xs; owner = assign g.owner a (Owner.taker t) })
          (next a)
          next
          value
          used
          (values xs)
    pop-Shape = record {
      chain = chain.4;
      members = Members-assign g.owner a (Owner.taker t) xs chain.3 members.1;
      null = assign-other g.owner a (Owner.taker t) 0 (λ e. chain.1 (sym e)) ∙ s.null;
      fresh = λ b f.
          let m = members.0 in
          let d : b ≢ a = λ x. ground (arith, m, s.fresh b f, ap g.owner x) in
          assign-other g.owner a (Owner.taker t) b d ∙ s.fresh b f;
      has = refl;
    }

    pub pop_has : contents ≡ v ∷ values xs
    pop_has = s.has ∙ ap values line

    pub pop_value : value a ≡ some v
    pop_value = chain.2

    pub pop-Later :
        Later p t g.owner head next value (assign g.owner a (Owner.taker t)) (next a) next value
    pop-Later =
        let m = members.0 in
        let o' = assign g.owner a (Owner.taker t) in
        record {
          heads = λ n. inr (t, ap o' chain.0 ∙ assign_self g.owner a (Owner.taker t));
          settled = λ b h. elim (Bool-cases (b == a)) [
            | inl e ↦ inr (t, ap o' (==→eq b a e) ∙ assign_self g.owner a (Owner.taker t))
            | inr e ↦
                let same = assign-other g.owner a (Owner.taker t) b (==→ne b a e) in
                elim h [ inl k ↦ inl (same ∙ k) | inr (w, k) ↦ inr (w, same ∙ k) ]
          ];
          links = λ b h. refl;
          gone = λ b (w, e).
              let d : b ≢ a = λ x. ground (arith, m, e, ap g.owner x) in
              (w, assign-other g.owner a (Owner.taker t) b d ∙ e);
          making = λ u b n h.
              let d : b ≢ a = λ x. ground (arith, m, h, ap g.owner x) in
              (assign-other g.owner a (Owner.taker t) b d ∙ h, refl, refl);
          taking = λ u b n h.
              let d : b ≢ a = λ x. ground (arith, m, h, ap g.owner x) in
              (assign-other g.owner a (Owner.taker t) b d ∙ h, refl);
        }

  -- A value is taken out of a node that left the stack.
  pub take-Shape :
      (t a : ℕ) → g.owner a ≡ Owner.taker t → Shape g head next (assign value a none) used contents
  take-Shape t a o = record {
    chain =
        Chain-clear next value a head g.line
          (Members-Apart g.owner a g.line s.members (λ e. ground (arith, e, o))) s.chain;
    members = s.members;
    null = s.null;
    fresh = s.fresh;
    has = s.has;
  }

  pub take-Later :
      (p t a : ℕ)
      → g.owner a ≡ Owner.taker t
      → Later p t g.owner head next value g.owner head next (assign value a none)
  take-Later p t a o = record {
    heads = λ n. inl refl;
    settled = λ b h. h;
    links = λ b h. refl;
    gone = λ b h. h;
    making = λ u b n h.
        let d : b ≢ a = λ x. ground (arith, o, h, ap g.owner x) in
        (h, refl, assign-other value a none b d);
    taking = λ u b n h.
        let d : b ≢ a = λ x. n (ground (arith, o, h, ap g.owner x)) in
        (h, assign-other value a none b d);
  }

  -- The successor of a node that left the stack is written.
  pub relink-Shape : (b n : ℕ) → Gone g.owner b → Shape g head (assign next b n) value used contents
  relink-Shape b n (w, o) = record {
    chain =
        Chain-link next value b n head g.line
          (Members-Apart g.owner b g.line s.members (λ e. ground (arith, e, o))) s.chain;
    members = s.members;
    null = s.null;
    fresh = s.fresh;
    has = s.has;
  }

  pub relink-Later :
      (p t b n : ℕ)
      → Gone g.owner b
      → Later p t g.owner head next value g.owner head (assign next b n) value
  relink-Later p t b n (w, o) = record {
    heads = λ x. inl refl;
    settled = λ c h. h;
    links = λ c h. assign-other next b n c (λ e. ground (arith, h, o, ap g.owner e));
    gone = λ c h. h;
    making =
        λ u c x h. (h, assign-other next b n c (λ e. ground (arith, h, o, ap g.owner e)), refl);
    taking = λ u c x h. (h, refl);
  }
