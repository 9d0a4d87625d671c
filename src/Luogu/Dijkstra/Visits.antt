-- ===== src/Luogu/Dijkstra/Visits.antt =====
-- One entry of the queue after the other.
use my_practise.Base.{
  ℕ, zero, suc, ◌+◌, ◌^◌, ◌≤◌, ◌<◌, ◌≡◌, ◌≢◌, refl, sym, ap, ◌∙◌, subst, Option, none, some, List,
  [], ◌∷◌, ◌⊎◌, inl, inr, ◌==◌, ==→eq, ==→ne, Bool-cases, length, update, arith,
}
use mathlib.Core.Option
use my_practise.Luogu.Dijkstra.{Graph, Search, infinity, seen, visit, turn, search_loop}
use my_practise.Luogu.Dijkstra.Entries.{In, Above, Ascending, Above-In}
use my_practise.Luogu.Dijkstra.Invariant.{
  Walk, along, Sound, Reached, Reached-Onward, seen-some, seen-none, update_self, update_other,
}
use my_practise.Luogu.Dijkstra.Relaxed.{Childs, relax_all-Relaxes}

-- Every edge of a settled vertex is taken into account.
abbrev pub Done : Graph → Search → Type 0
Done g s = (u d v w : ℕ) → s.ret u ≡ some d → In (v, w) (g u) → Reached s v (d + w)

abbrev pub Weights : Graph → Type 0
Weights g = (u v w : ℕ) → In (v, w) (g u) → w < 2 ^ 31

settles :
    (r : ℕ → Option ℕ) (node d u e : ℕ)
    → update r node (some d) u ≡ some e
    → ((u ≡ node) × (e ≡ d)) ⊎ ((u ≢ node) × (r u ≡ some e))
settles r node d u e h = elim (Bool-cases (u == node)) [
  | inl p ↦
      let q = ==→eq u node p in
      let k = sym (update_self r node (some d)) ∙ ap (update r node (some d)) (sym q) ∙ h in
      inl (q, ground (arith, k))
  | inr p ↦ let n = ==→ne u node p in inr (n, sym (update_other r node (some d) u n) ∙ h)
]

opens :
    (r : ℕ → Option ℕ) (node d v : ℕ) → update r node (some d) v ≡ none → (v ≢ node) × (r v ≡ none)
opens r node d v h =
    let n : v ≢ node = λ q. cc (update_self r node (some d), ap (update r node (some d)) q, h) in
    (n, sym (update_other r node (some d) v n) ∙ h)

module _ (g : Graph) (s : Search) (i : Sound g s) (d node : ℕ) (rest : List (ℕ × ℕ))
    (q : s.pq ≡ (d, node) ∷ rest) where
  in_order : Ascending ((d, node) ∷ rest)
  in_order = subst Ascending q i.sorted

  old : (x : ℕ × ℕ) → In x rest → In x s.pq
  old x h = subst (In x) (sym q) (inr h)

  nearest : (e v : ℕ) → In (e, v) s.pq → d ≤ e
  nearest e v h = elim (subst (In (e, v)) q h) [
    | inl p ↦ let k = ap (λ (y : ℕ × ℕ). y.0) p in omega arith
    | inr j ↦ Above-In d e v rest in_order.0 j
  ]

  nearest_waiting : (v : ℕ) → s.ret v ≡ none → d ≤ s.dis v
  nearest_waiting v h = elim (i.waiting v h) [
    | inl e ↦ let k = (i.entries d node (subst (In (d, node)) (sym q) (inl refl))).1 in omega arith
    | inr j ↦ nearest (s.dis v) v j
  ]

  Walk-here : Walk g node d × (d ≤ infinity)
  Walk-here = i.entries d node (subst (In (d, node)) (sym q) (inl refl))

  still_waiting : (v : ℕ) → v ≢ node → s.ret v ≡ none → (s.dis v ≡ infinity) ⊎ In (s.dis v, v) rest
  still_waiting v n h = elim (i.waiting v h) [
    | inl e ↦ inl e
    | inr j ↦ elim (subst (In (s.dis v, v)) q j) [
      | inl p ↦ absurd (n (ap (λ (y : ℕ × ℕ). y.1) p))
      | inr k ↦ inr k
    ]
  ]

  under : (e : ℕ) → Above e s.pq → (e ≤ d) × Above e rest
  under e a = subst (Above e) q a

  -- The entry of a vertex that is settled.
  skip-Sound : (x : ℕ) → s.ret node ≡ some x → Sound g (record s { pq = rest })
  skip-Sound x h = record {
    entries = λ e v j. i.entries e v (old (e, v) j);
    sorted = in_order.1;
    settled = i.settled;
    below = λ u e k. (under e (i.below u e k)).1;
    waiting = λ v k. still_waiting v (λ p. cc (ap s.ret p, h, k)) k;
    source_waits = i.source_waits;
    source_done = i.source_done;
  }

  -- The vertex is settled.
  settle-Sound :
      s.ret node ≡ none → Sound g (record s { pq = rest; ret = update s.ret node (some d) })
  settle-Sound h = record {
    entries = λ e v j. i.entries e v (old (e, v) j);
    sorted = in_order.1;
    settled = λ u e k. elim (settles s.ret node d u e k) [
      | inl (p, r) ↦
          subst (λ y. Walk g y e × (e ≤ infinity)) (sym p)
            (subst (λ y. Walk g node y × (y ≤ infinity)) (sym r) Walk-here)
      | inr (n, r) ↦ i.settled u e r
    ];
    below = λ u e k. elim (settles s.ret node d u e k) [
      | inl (p, r) ↦ subst (λ y. Above y rest) (sym r) in_order.0
      | inr (n, r) ↦ (under e (i.below u e r)).1
    ];
    waiting = λ v k. let (n, r) = opens s.ret node d v k in still_waiting v n r;
    source_waits = λ k. i.source_waits (opens s.ret node d 1 k).1;
    source_done = λ e k. elim (settles s.ret node d 1 e k) [
      | inl (p, r) ↦
          let free = ap s.ret p ∙ h in
          let z = i.source_waits free in let l = nearest_waiting 1 free in omega arith
      | inr (n, r) ↦ i.source_done e r
    ];
  }

  most : (u e : ℕ) → update s.ret node (some d) u ≡ some e → e ≤ d
  most u e k = elim (settles s.ret node d u e k) [
    | inl (p, r) ↦ omega arith
    | inr (n, r) ↦ (under e (i.below u e r)).0
  ]

  settle-Reached :
      (v x : ℕ)
      → s.ret node ≡ none
      → Reached s v x
      → Reached (record s { pq = rest; ret = update s.ret node (some d) }) v x
  settle-Reached v x h r = elim (Bool-cases (v == node)) [
    | inl p ↦
        let e = ==→eq v node p in
        let at = ap (update s.ret node (some d)) e ∙ update_self s.ret node (some d) in
        elim r [
          | inl (y, k, l) ↦ absurd (ground (arith, k, h, ap s.ret e))
          | inr (k, l) ↦ let m = nearest_waiting v k in inl (d, at, omega arith)
        ]
    | inr p ↦
        let at = update_other s.ret node (some d) v (==→ne v node p) in
        elim r [ inl (y, k, l) ↦ inl (y, at ∙ k, l) | inr (k, l) ↦ inr (at ∙ k, l) ]
  ]

  childs :
      Weights g
      → (cs : List (ℕ × ℕ)) → ((v w : ℕ) → In (v, w) cs → In (v, w) (g node))
      → Childs g d cs
  childs small [] h = tt
  childs small ((v, w) ∷ cs) h = (
    along w Walk-here.0 (h v w (inl refl)) refl,
    small node v w (h v w (inl refl)),
    childs small cs (λ x y j. h x y (inr j)),
  )

  module _ (pending : (ℕ → Option ℕ) → ℕ)
      (drops : (r : ℕ → Option ℕ) (a e : ℕ)
        → r a ≡ none
        → pending (update r a (some e)) + length (g a) ≡ pending r) where
    pub visit-Sound :
        Weights g
        → Done g s
        → (s' : Search) × (visit g d node (record s { pq = rest }) ≡ some s')
          × Sound g s'
          × Done g s'
          × (length s'.pq + pending s'.ret < length s.pq + pending s.ret)
    unfolding visit
    visit-Sound small done = elim (Bool-cases (seen (s.ret node))) [
      | inl e ↦
          let (x, h) = seen-some (s.ret node) e in
          let size = ap length q in
          (record s { pq = rest }, rw e, skip-Sound x h, done, omega arith)
      | inr e ↦
          let h = seen-none (s.ret node) e in
          let s1 : Search = record s { pq = rest; ret = update s.ret node (some d) } in
          let (s2, run, r, got) =
            relax_all-Relaxes g d (g node) s1 (childs small (g node) (λ v w j. j)) (settle-Sound h)
              Walk-here.1 most in
          let size = ap length q in
          let fewer = drops s.ret node d h in
          let same = ap pending r.onward.same in
          let room = r.room in
          (
            s2,
            rw e run,
            r.sound,
            λ u x v w k j. elim (settles s.ret node d u x (sym (ap (λ f. f u) r.onward.same) ∙ k)) [
              | inl (p, z) ↦
                  subst (λ y. Reached s2 v (y + w)) (sym z)
                    (got v w (subst (λ y. In (v, w) (g y)) p j))
              | inr (n, z) ↦
                  Reached-Onward s1 s2 v (x + w) r.onward
                    (settle-Reached v (x + w) h (done u x v w z j))
            ],
            omega arith,
          )
    ]

module _ (g : Graph) (small : Weights g) (pending : (ℕ → Option ℕ) → ℕ)
    (drops : (r : ℕ → Option ℕ) (a e : ℕ)
      → r a ≡ none
      → pending (update r a (some e)) + length (g a) ≡ pending r) where
  abbrev Ends : Option Search → Type 0
  Ends r = (s' : Search) × (r ≡ some s') × Sound g s' × Done g s' × (s'.pq ≡ [])

  loop_from :
      (fuel : ℕ) (s : Search) (q : List (ℕ × ℕ))
      → s.pq ≡ q
      → Sound g s
      → Done g s
      → length s.pq + pending s.ret < suc fuel
      → ((s1 : Search)
          → Sound g s1
          → Done g s1
          → length s1.pq + pending s1.ret < fuel
          → Ends (search_loop fuel g s1))
      → Ends (turn (search_loop fuel g) g s q)
  unfolding turn Option.bind
  loop_from fuel s [] e i done h ih = (s, refl, i, done, e)
  loop_from fuel s ((d, node) ∷ rest) e i done h ih =
      let (s1, run, i1, done1, l) = visit-Sound g s i d node rest e pending drops small done in
      let (s2, run2, i2, done2, end) = ih s1 i1 done1 (omega arith) in
      (s2, rw run run2, i2, done2, end)

  -- With a measure below the fuel the loop ends, with an empty queue.
  pub search_loop-Sound :
      (fuel : ℕ) (s : Search)
      → Sound g s
      → Done g s
      → length s.pq + pending s.ret < fuel
      → Ends (search_loop fuel g s)
  unfolding search_loop
  search_loop-Sound zero s i done h = absurd (omega arith)
  search_loop-Sound (suc fuel) s i done h =
      loop_from fuel s s.pq refl i done h (λ s1 a b c. search_loop-Sound fuel s1 a b c)
