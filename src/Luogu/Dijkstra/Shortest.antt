-- ===== src/Luogu/Dijkstra/Shortest.antt =====
-- The distances are those of the shortest routes.
use my_practise.Base.{
  ℕ, suc, ◌≤◌, ◌<◌, ◌≡◌, refl, sym, ap, subst, Option, none, some, List, [], ◌∷◌, ◌⊎◌, inl, inr,
  ◌==◌, ==→eq, ==→ne, Bool-cases, update, arith,
}
use my_practise.Luogu.Dijkstra.{
  Edge, Graph, Search, infinity, start, size, dijkstra, print_from, print_distances,
}
use my_practise.Luogu.Dijkstra.Entries.{In}
use my_practise.Luogu.Dijkstra.Invariant
use my_practise.Luogu.Dijkstra.Invariant.{Walk, Sound, Reached, update_self, update_other}
use my_practise.Luogu.Dijkstra.Roads.{
  Route, Small, pending, pending-le, Walk-Route, Route-Walk, weights, drops, graph,
}
use my_practise.Luogu.Dijkstra.Visits.{Done, search_loop-Sound}

start-Sound : (g : Graph) → Sound g start
unfolding start
start-Sound g = record {
  entries = λ d v j. elim j [
    | inl p ↦
        let pd = ap (λ (y : ℕ × ℕ). y.0) p in
        let pv = ap (λ (y : ℕ × ℕ). y.1) p in
        (
          subst (λ y. Walk g y d) (sym pv) (subst (λ y. Walk g 1 y) (sym pd) Invariant.Walk.here),
          omega arith,
        )
    | inr z ↦ absurd z
  ];
  sorted = (tt, tt);
  settled = λ u d h. cc;
  below = λ u d h. cc;
  waiting = λ v h. elim (Bool-cases (v == 1)) [
    | inl e ↦
        let p = ==→eq v 1 e in
        inr (
          subst (λ y. In {A = ℕ × ℕ} (update (λ x. infinity) 1 0 y, y) ((0, 1) ∷ [])) (sym p)
            (inl refl))
    | inr e ↦ inl (update_other (λ x. infinity) 1 0 v (==→ne v 1 e))
  ];
  source_waits = λ h. refl;
  source_done = λ d h. cc;
}

start-Done : (g : Graph) → Done g start
unfolding start
start-Done g u d v w h j = cc

settled_or : (r : Option ℕ) → ((e : ℕ) × (r ≡ some e)) ⊎ (r ≡ none)
settled_or (some e) = inl (e, refl)
settled_or none = inr refl

module _ (g : Graph) (s : Search) (i : Sound g s) (done : Done g s) (end : s.pq ≡ []) where
  -- At an empty queue a vertex that is not settled is out of reach.
  far : (v : ℕ) → s.ret v ≡ none → s.dis v ≡ infinity
  far v h = elim (i.waiting v h) [ inl e ↦ e | inr j ↦ absurd (subst (In (s.dis v, v)) end j) ]

  -- Every walk that is not too long is matched.
  matched : {v x : ℕ} → Walk g v x → x < infinity → (e : ℕ) × (s.ret v ≡ some e) × (e ≤ x)
  matched Invariant.Walk.here l = elim (settled_or (s.ret 1)) [
    | inl (e, h) ↦ let z = i.source_done e h in (e, h, omega arith)
    | inr h ↦ let z = i.source_waits h in let f = far 1 h in absurd (omega arith)
  ]
  matched (Invariant.Walk.along {u} {d} {v} {x} w r j p) l =
      let (e, h, k) = matched r (omega arith) in
      elim (done u e v w h j) [
        | inl (y, n, m) ↦ (y, n, omega arith)
        | inr (n, m) ↦ let f = far v n in absurd (omega arith)
      ]

-- The search ends.
dijkstra_ends :
    (es : List Edge)
    → Small es
    → (s : Search) × (dijkstra es ≡ some s) × Sound (graph es) s × Done (graph es) s × (s.pq ≡ [])
unfolding dijkstra start
dijkstra_ends es small =
    let g = graph es in
    let l = pending-le es (λ v. none) in
    search_loop-Sound g (weights es small) (pending es) (drops es) (suc (suc (size es))) start
      (start-Sound g) (start-Done g) (omega arith)

-- The entry of a vertex is the length of a shortest route, or none where no route is below infinity.
abbrev pub IsShortest : List Edge → ℕ → Option ℕ → Type 0
IsShortest es v none = (x : ℕ) → Route es v x → infinity ≤ x
IsShortest es v (some d) = Route es v d × ((x : ℕ) → Route es v x → d ≤ x)

le_cases : (x y : ℕ) → (x < y) ⊎ (y ≤ x)
le_cases x y = ground arith

entry-IsShortest :
    (es : List Edge) (s : Search)
    → Sound (graph es) s
    → Done (graph es) s
    → s.pq ≡ []
    → (v : ℕ) (r : Option ℕ) → s.ret v ≡ r
    → IsShortest es v r
entry-IsShortest es s i done end v none h = λ x route. elim (le_cases x infinity) [
  | inl l ↦
      let (e, k, m) = matched (graph es) s i done end (Route-Walk es route) l in
      absurd (ground (arith, h, k))
  | inr l ↦ l
]
entry-IsShortest es s i done end v (some d) h =
    let (walk, bound) = i.settled v d h in
    (
      Walk-Route es walk,
      λ x route. elim (le_cases x infinity) [
        | inl l ↦
            let (e, k, m) = matched (graph es) s i done end (Route-Walk es route) l in
            let same : d ≡ e = ground (arith, h, k) in omega arith
        | inr l ↦ omega arith
      ],
    )

-- Where the weights fit the type `int`, the program returns without an overflow, and prints for each
-- vertex the length of a shortest route from the vertex 1, or -1 if no route is shorter than what
-- `dis` starts with.
pub print_distances-IsShortest :
    (n : ℕ) (es : List Edge)
    → Small es
    → (ret : ℕ → Option ℕ) × (print_distances n es ≡ some (print_from n 1 ret))
      × ((v : ℕ) → IsShortest es v (ret v))
unfolding print_distances
print_distances-IsShortest n es small =
    let (s, run, i, done, end) = dijkstra_ends es small in
    (s.ret, rw run refl, λ v. entry-IsShortest es s i done end v (s.ret v) refl)
