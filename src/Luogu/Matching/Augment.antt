-- ===== src/Luogu/Matching/Augment.antt =====
-- What `dfs` does to the arrays, and that it returns.
use my_practise.Base.{
  ℕ, zero, suc, ◌+◌, ◌≤◌, ◌<◌, ◌≡◌, ◌≢◌, refl, ap, ◌∙◌, inl, inr, Bool, true, false, List, [], ◌∷◌,
  some, ◌==◌, Bool-cases, eq→==, ne→==, arith,
}
use my_practise.Luogu.Matching.{State, Graph, Found, mark, connect, behind, scan, dfs}
use my_practise.Luogu.Matching.Counts.{
  one, count, unseen, elem, InRange, count-connect, unseen-mark,
}

abbrev added : Bool → ℕ → ℕ → ℕ
added true y x = one y x
added false y x = 0

-- `dfs(u)` leaves visited vertices alone; where it fails it changes no partner, and where it succeeds
-- u has one partner more, every other left vertex as many as before, and one right vertex fewer is
-- free. Every pair it leaves is an edge if every pair it found was.
pub record Augments (a : Graph) (m u : ℕ) (s : State) (found : Bool) (t : State) : Type 0 where
  pub keeps_vis : (w : ℕ) → s.vis w ≡ true → t.vis w ≡ true
  pub keeps_con : (w : ℕ) → s.vis w ≡ true → t.con w ≡ s.con w
  pub fewer : unseen t.vis m ≤ unseen s.vis m
  pub moves : (x : ℕ) → count x t.con m + added found 0 x ≡ count x s.con m + added found u x
  pub edges :
      ((w : ℕ) → s.con w ≢ 0 → elem w (a (s.con w)) ≡ true)
      → (w : ℕ) → t.con w ≢ 0
      → elem w (a (t.con w)) ≡ true

abbrev pub Returns : Graph → ℕ → ℕ → State → Found → Type 0
Returns a m u s r = (found : Bool) × (t : State) × (r ≡ some (found, t)) × Augments a m u s found t

-- A failed attempt at v followed by other attempts for the same left vertex.
then_other :
    (a : Graph) (m u y v : ℕ) (s t t' : State) (found : Bool)
    → 1 ≤ v
    → v ≤ m
    → s.vis v ≡ false
    → Augments a m y (mark v s) false t
    → Augments a m u t found t'
    → Augments a m u s found t'
then_other a m u y v s t t' found lo hi new k k' =
    let old : (w : ℕ) → s.vis w ≡ true → (mark v s).vis w ≡ true = λ w h. ground (arith, h) in
    record {
      keeps_vis = λ w h. k'.keeps_vis w (k.keeps_vis w (old w h));
      keeps_con = λ w h. k'.keeps_con w (k.keeps_vis w (old w h)) ∙ k.keeps_con w (old w h);
      fewer = omega (arith, unseen-mark v m s lo hi new, k.fewer, k'.fewer);
      moves = λ x. omega (arith, k.moves x, k'.moves x);
      edges = λ h. k'.edges (k.edges h);
    }

connect-con_other : (v u w : ℕ) (t : State) → w ≢ v → (connect v u t).con w ≡ t.con w
connect-con_other v u w t h = rw (ne→== w v h)

apart : (s : State) (v w : ℕ) → s.vis v ≡ false → s.vis w ≡ true → w ≢ v
apart s v w new old = λ e. cc

connect-edges :
    (a : Graph) (u v : ℕ) (t : State)
    → elem v (a u) ≡ true
    → ((w : ℕ) → t.con w ≢ 0 → elem w (a (t.con w)) ≡ true)
    → (w : ℕ) → (connect v u t).con w ≢ 0
    → elem w (a ((connect v u t).con w)) ≡ true
connect-edges a u v t edge h w ne = elim (Bool-cases (w == v)) [
  | inl e ↦ let p : w ≡ v = ground (arith, e) in rw e (ap (λ z. elem z (a u)) p ∙ edge)
  | inr e ↦
      let same = connect-con_other v u w t (ground (arith, e)) in
      ap (λ c. elem w (a c)) same ∙ h w (λ z. ne (same ∙ z))
]

-- The new edge (u, v) to a free v.
to_free :
    (a : Graph) (m u v : ℕ) (s : State)
    → 1 ≤ v
    → v ≤ m
    → elem v (a u) ≡ true
    → s.vis v ≡ false
    → s.con v ≡ 0
    → Augments a m u s true (connect v u (mark v s))
to_free a m u v s lo hi edge new free = record {
  keeps_vis = λ w h. ground (arith, h);
  keeps_con = λ w h. connect-con_other v u w (mark v s) (apart s v w new h);
  fewer = omega (arith, unseen-mark v m s lo hi new);
  moves = λ x. ground (arith, count-connect x v u m (mark v s) lo hi, free);
  edges = λ h. connect-edges a u v (mark v s) edge h;
}

-- The new edge (u, v) behind another partner for the old one of v.
to_taken :
    (a : Graph) (m u v : ℕ) (s t : State)
    → 1 ≤ v
    → v ≤ m
    → elem v (a u) ≡ true
    → s.vis v ≡ false
    → Augments a m (s.con v) (mark v s) true t
    → Augments a m u s true (connect v u t)
to_taken a m u v s t lo hi edge new k =
    let old : t.con v ≡ s.con v = k.keeps_con v (rw (eq→== v v refl)) in
    record {
      keeps_vis = λ w h. k.keeps_vis w (ground (arith, h));
      keeps_con =
          λ w h. connect-con_other v u w t (apart s v w new h) ∙ k.keeps_con w (ground (arith, h));
      fewer = omega (arith, unseen-mark v m s lo hi new, k.fewer);
      moves = λ x. ground (arith, count-connect x v u m t lo hi, k.moves x, old);
      edges = λ h. connect-edges a u v t edge (k.edges h);
    }

module _ (call : ℕ → State → Found) (u v : ℕ) (vs : List ℕ) (s : State) where
  scan-old : s.vis v ≡ true → scan call u (v ∷ vs) s ≡ scan call u vs s
  unfolding scan
  scan-old h = rw (h, scan)

  scan-free :
      s.vis v ≡ false → s.con v ≡ 0 → scan call u (v ∷ vs) s ≡ some (true, connect v u (mark v s))
  unfolding scan
  scan-free h k = rw (h, eq→== (s.con v) 0 k, scan)

  scan-taken :
      s.vis v ≡ false
      → s.con v ≢ 0
      → scan call u (v ∷ vs) s ≡ behind u v (call (s.con v) (mark v s)) (λ t. scan call u vs t)
  unfolding scan
  scan-taken h k = rw (h, ne→== (s.con v) 0 k, scan)

Returns-eq :
    {a : Graph} {m u : ℕ} {s : State} {r r' : Found}
    → r ≡ r'
    → Returns a m u s r'
    → Returns a m u s r
Returns-eq e (found, t, p, k) = (found, t, e ∙ p, k)

-- What follows the call for the old partner of v, from what the call returns.
behind-Returns :
    (a : Graph) (m u v : ℕ) (s : State) (rest : State → Found)
    → 1 ≤ v
    → v ≤ m
    → elem v (a u) ≡ true
    → s.vis v ≡ false
    → ((t : State) → unseen t.vis m < unseen s.vis m → Returns a m u t (rest t))
    → (r : Found) → Returns a m (s.con v) (mark v s) r
    → Returns a m u s (behind u v r rest)
unfolding behind
behind-Returns a m u v s rest lo hi edge new go r (true, t, e, k) =
    Returns-eq (ap (λ q. behind u v q rest) e)
      (true, connect v u t, refl, to_taken a m u v s t lo hi edge new k)
behind-Returns a m u v s rest lo hi edge new go r (false, t, e, k) =
    let (found, t', e', k') = go t (omega (arith, k.fewer, unseen-mark v m s lo hi new)) in
    Returns-eq (ap (λ q. behind u v q rest) e)
      (found, t', e', then_other a m u (s.con v) v s t t' found lo hi new k k')

-- The loop of `dfs(u)` returns and augments, given that the calls it makes do.
scan-Returns :
    (a : Graph) (m fuel u : ℕ) (call : ℕ → State → Found)
    → ((w : ℕ) (s : State) → unseen s.vis m < fuel → Returns a m w s (call w s))
    → (vs : List ℕ) → InRange m vs
    → ((w : ℕ) → elem w vs ≡ true → elem w (a u) ≡ true)
    → (s : State) → unseen s.vis m ≤ fuel
    → Returns a m u s (scan call u vs s)
unfolding scan
scan-Returns a m fuel u call calls [] range sub s f = (false, s, refl, none_added)
  where
    none_added : Augments a m u s false s
    none_added = record {
      keeps_vis = λ w h. h;
      keeps_con = λ w h. refl;
      fewer = omega arith;
      moves = λ x. refl;
      edges = λ h. h;
    }
scan-Returns a m fuel u call calls (v ∷ vs) range sub s f =
    let sub' = λ (w : ℕ) (h : elem w vs ≡ true). sub w (ground (arith, h)) in
    let next = scan-Returns a m fuel u call calls vs range.2 sub' in
    elim (Bool-cases (s.vis v)) [
      | inl old ↦ Returns-eq (scan-old call u v vs s old) (next s f)
      | inr new ↦
          let less = unseen-mark v m s range.0 range.1 new in
          let edge = sub v (rw (eq→== v v refl)) in
          elim (Bool-cases (s.con v == 0)) [
            | inl e ↦
                let free : s.con v ≡ 0 = ground (arith, e) in
                (
                  true,
                  connect v u (mark v s),
                  scan-free call u v vs s new free,
                  to_free a m u v s range.0 range.1 edge new free,
                )
            | inr e ↦ Returns-eq (scan-taken call u v vs s new (ground (arith, e))) (
                behind-Returns a m u v s (λ t. scan call u vs t) range.0 range.1 edge new
                  (λ t h. next t (omega (arith, h))) (call (s.con v) (mark v s))
                  (calls (s.con v) (mark v s) (omega (arith, less))))
          ]
    ]

-- `dfs` returns within one more call than there are unvisited right vertices.
pub dfs-Returns :
    (a : Graph) (m : ℕ)
    → ((u : ℕ) → InRange m (a u))
    → (fuel u : ℕ) (s : State) → unseen s.vis m < fuel
    → Returns a m u s (dfs a fuel u s)
unfolding dfs
dfs-Returns a m range zero u s f = absurd (omega arith)
dfs-Returns a m range (suc fuel) u s f =
    scan-Returns a m fuel u (dfs a fuel) (dfs-Returns a m range fuel) (a u) (range u) (λ w h. h) s
      (omega arith)
