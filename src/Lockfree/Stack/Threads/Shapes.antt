-- ===== src/Lockfree/Stack/Threads/Shapes.antt =====
-- What each write to shared memory leaves of the chain of nodes.
use my_practise.Base.{
  ℕ, ◌≡◌, ◌≢◌, refl, sym, ap, ◌∙◌, subst, Bool, true, false, Option, some, List, [], ◌∷◌, inl, inr,
  arith,
}
use my_practise.Lockfree.Calls.{assign_self, assign-other}
use my_practise.Lockfree.Stack.{assign}
use my_practise.Lockfree.Stack.Chain.{Cells, Apart, Chain, Chain-assign}
use my_practise.Lockfree.Stack.Threads.Ghosts.{Owner, Owners, Ghost, Members, Settled, Shape, Later}

pub Members-Apart :
    (o : Owners) (a : ℕ) (xs : Cells) → Members o xs → o a ≢ Owner.member → Apart a xs
Members-Apart o a [] h n = tt
Members-Apart o a ((b, v) ∷ xs) (e, h) n = (λ p. n (ap o p ∙ e), Members-Apart o a xs h n)

pub Members-assign :
    (o : Owners) (a : ℕ) (x : Owner) (xs : Cells)
    → Apart a xs
    → Members o xs
    → Members (assign o a x) xs
Members-assign o a x [] h k = tt
Members-assign o a x ((b, v) ∷ xs) (n, h) (e, k) =
    (assign-other o a x b (λ p. n (sym p)) ∙ e, Members-assign o a x xs h k)

pub Chain-link :
    (next : ℕ → ℕ) (value : ℕ → Option ℕ) (a n p : ℕ) (xs : Cells)
    → Apart a xs
    → Chain next value p xs
    → Chain (assign next a n) value p xs
Chain-link next value a n p [] h c = c
Chain-link next value a n p ((b, w) ∷ xs) h c =
    let same : assign next a n b ≡ next b = assign-other next a n b (λ e. h.0 (sym e)) in
    (c.0, c.1, c.2, c.3, rw same (Chain-link next value a n (next b) xs h.1 c.4))

Settled-ne : (o : Owners) (a b t : ℕ) → o a ≡ Owner.maker t → Settled o b → b ≢ a
Settled-ne o a b t e (inl h) p = ground (arith, e, h, ap o p)
Settled-ne o a b t e (inr (w, h)) p = ground (arith, e, h, ap o p)

maker-ne : (o : Owners) (a b t u : ℕ) → u ≢ t → o a ≡ Owner.maker t → o b ≡ Owner.maker u → b ≢ a
maker-ne o a b t u n e h p = n (ground (arith, e, h, ap o p))

module _ (g : Ghost) (head : ℕ) (next : ℕ → ℕ) (value : ℕ → Option ℕ) (used : ℕ → Bool)
    (contents : List ℕ) (s : Shape g head next value used contents) where
  -- An address that `new` has not given out.
  pub call-Shape :
      (t a : ℕ)
      → used a ≡ false
      → a ≢ 0
      → Shape
          (record g { owner = assign g.owner a (Owner.maker t) })
          head
          next
          value
          (assign used a true)
          contents
  call-Shape t a f n =
      let free = s.fresh a f in
      record {
        chain = s.chain;
        members =
            Members-assign g.owner a (Owner.maker t) g.line
              (Members-Apart g.owner a g.line s.members (λ e. ground (arith, e, free))) s.members;
        null = assign-other g.owner a (Owner.maker t) 0 (λ e. n (sym e)) ∙ s.null;
        fresh = λ b h.
            let d : b ≢ a = λ e. cc (h, ap (assign used a true) e, assign_self used a true) in
            assign-other g.owner a (Owner.maker t) b d
            ∙ s.fresh b (sym (assign-other used a true b d) ∙ h);
        has = s.has;
      }

  pub call-Later :
      (p t a : ℕ)
      → used a ≡ false
      → Later p t g.owner head next value (assign g.owner a (Owner.maker t)) head next value
  call-Later p t a f =
      let free = s.fresh a f in
      let same : (b : ℕ)
          → g.owner b ≢ Owner.nobody
          → assign g.owner a (Owner.maker t) b ≡ g.owner b =
        λ b h. assign-other g.owner a (Owner.maker t) b (λ e. h (ap g.owner e ∙ free)) in
      record {
        heads = λ n. inl refl;
        settled = λ b h. elim h [
          | inl e ↦ inl (same b (λ x. ground (arith, x, e)) ∙ e)
          | inr (w, e) ↦ inr (w, same b (λ x. ground (arith, x, e)) ∙ e)
        ];
        links = λ b h. refl;
        gone = λ b (w, e). (w, same b (λ x. ground (arith, x, e)) ∙ e);
        making = λ u b n e. (same b (λ x. ground (arith, x, e)) ∙ e, refl, refl);
        taking = λ u b n e. (same b (λ x. ground (arith, x, e)) ∙ e, refl);
      }

  module _ (p t a : ℕ) (o : g.owner a ≡ Owner.maker t) where
    apart : Apart a g.line
    apart = Members-Apart g.owner a g.line s.members (λ e. ground (arith, e, o))

    -- The constructor of a node.
    pub start-Shape :
        (n v : ℕ) → Shape g head (assign next a n) (assign value a (some v)) used contents
    start-Shape n v = record {
      chain = Chain-assign next value a n (some v) head g.line apart s.chain;
      members = s.members;
      null = s.null;
      fresh = s.fresh;
      has = s.has;
    }

    pub start-Later :
        (n v : ℕ)
        → Later p t g.owner head next value g.owner head (assign next a n) (assign value a (some v))
    start-Later n v = record {
      heads = λ x. inl refl;
      settled = λ b h. h;
      links = λ b h. assign-other next a n b (Settled-ne g.owner a b t o (inl h));
      gone = λ b h. h;
      making = λ u b x h.
          let d = maker-ne g.owner a b t u x o h in
          (h, assign-other next a n b d, assign-other value a (some v) b d);
      taking =
          λ u b x h. (h, assign-other value a (some v) b (Settled-ne g.owner a b t o (inr (u, h))));
    }

    -- `new_node_ptr->next_ = ori_node_ptr`
    pub link-Shape : (n : ℕ) → Shape g head (assign next a n) value used contents
    link-Shape n = record {
      chain = Chain-link next value a n head g.line apart s.chain;
      members = s.members;
      null = s.null;
      fresh = s.fresh;
      has = s.has;
    }

    pub link-Later :
        (n : ℕ) → Later p t g.owner head next value g.owner head (assign next a n) value
    link-Later n = record {
      heads = λ x. inl refl;
      settled = λ b h. h;
      links = λ b h. assign-other next a n b (Settled-ne g.owner a b t o (inl h));
      gone = λ b h. h;
      making = λ u b x h. (h, assign-other next a n b (maker-ne g.owner a b t u x o h), refl);
      taking = λ u b x h. (h, refl);
    }

    -- The head is the new node.
    pub push-Shape :
        (v : ℕ)
        → next a ≡ head
        → value a ≡ some v
        → a ≢ 0
        → Shape
            (record { line = (a, v) ∷ g.line; owner = assign g.owner a Owner.member })
            a
            next
            value
            used
            (v ∷ contents)
    push-Shape v e h n = record {
      chain = (refl, n, h, apart, subst (λ x. Chain next value x g.line) (sym e) s.chain);
      members = (
        assign_self g.owner a Owner.member,
        Members-assign g.owner a Owner.member g.line apart s.members,
      );
      null = assign-other g.owner a Owner.member 0 (λ x. n (sym x)) ∙ s.null;
      fresh = λ b f.
          let d : b ≢ a = λ x. ground (arith, o, s.fresh b f, ap g.owner x) in
          assign-other g.owner a Owner.member b d ∙ s.fresh b f;
      has = ap (λ xs. v ∷ xs) s.has;
    }

    pub push-Later :
        t ≡ p → Later p t g.owner head next value (assign g.owner a Owner.member) a next value
    push-Later tp = record {
      heads = λ n. absurd (n tp);
      settled = λ b h.
          let same = assign-other g.owner a Owner.member b (Settled-ne g.owner a b t o h) in
          elim h [ inl e ↦ inl (same ∙ e) | inr (w, e) ↦ inr (w, same ∙ e) ];
      links = λ b h. refl;
      gone = λ b (w, e).
          (w, assign-other g.owner a Owner.member b (Settled-ne g.owner a b t o (inr (w, e))) ∙ e);
      making = λ u b n h.
          (assign-other g.owner a Owner.member b (maker-ne g.owner a b t u n o h) ∙ h, refl, refl);
      taking = λ u b n h. (
        assign-other g.owner a Owner.member b (Settled-ne g.owner a b t o (inr (u, h))) ∙ h,
        refl,
      );
    }
