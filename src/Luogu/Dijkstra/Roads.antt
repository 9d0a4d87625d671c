-- ===== src/Luogu/Dijkstra/Roads.antt =====
-- The lists of children and the edges, whose routes are the walks.
use my_practise.Base.{
  ℕ, suc, ◌+◌, ◌^◌, ◌≤◌, ◌<◌, ◌≡◌, refl, sym, ap, ◌∙◌, subst, Option, none, some, List, [], ◌∷◌,
  ◌++◌, ◌⊎◌, inl, inr, ◌==◌, ==→eq, ==→ne, if◌then◌else◌, Bool-cases, length, update, arith,
}
use my_practise.Luogu.Dijkstra.{Edge, Graph, load_graph, seen, size}
use my_practise.Luogu.Dijkstra.Entries.{In}
use my_practise.Luogu.Dijkstra.Invariant
use my_practise.Luogu.Dijkstra.Invariant.{Walk, Sound, Reached, update_self, update_other}
use my_practise.Luogu.Dijkstra.Visits.{Weights}

-- The routes from the vertex 1 along the edges, with their lengths.
pub data Route (es : List Edge) : ℕ → ℕ → Type 0 where
  here : Route es 1 0
  along :
      {u d v x : ℕ} (e : Edge)
      → Route es u d
      → In e es
      → e.from_vertex ≡ u
      → e.to_vertex ≡ v
      → d + e.weight ≡ x
      → Route es v x

-- The weights are those of the type `int`.
abbrev pub Small : List Edge → Type 0
Small [] = Unit
Small (e ∷ es) = (e.weight < 2 ^ 31) × Small es

Small-In : (es : List Edge) (e : Edge) → Small es → In e es → e.weight < 2 ^ 31
Small-In [] e h j = elim j [ ]
Small-In (f ∷ es) e (l, h) (inl p) = let k = ap (λ (x : Edge). x.weight) p in omega arith
Small-In (f ∷ es) e (l, h) (inr j) = Small-In es e h j

In-append_left : (x : ℕ × ℕ) (xs ys : List (ℕ × ℕ)) → In x xs → In x (xs ++ ys)
In-append_left x [] ys h = elim h [ ]
In-append_left x (y ∷ xs) ys (inl p) = inl p
In-append_left x (y ∷ xs) ys (inr h) = inr (In-append_left x xs ys h)

In-append_last : (x : ℕ × ℕ) (xs : List (ℕ × ℕ)) → In x (xs ++ x ∷ [])
In-append_last x [] = inl refl
In-append_last x (y ∷ xs) = inr (In-append_last x xs)

In-append : (x y : ℕ × ℕ) (xs : List (ℕ × ℕ)) → In x (xs ++ y ∷ []) → In x xs ⊎ (x ≡ y)
In-append x y [] (inl p) = inr p
In-append x y [] (inr h) = elim h [ ]
In-append x y (z ∷ xs) (inl p) = inl (inl p)
In-append x y (z ∷ xs) (inr h) = elim (In-append x y xs h) [ inl j ↦ inl (inr j) | inr p ↦ inr p ]

length-append_last : (y : ℕ × ℕ) (xs : List (ℕ × ℕ)) → length (xs ++ y ∷ []) ≡ suc (length xs)
length-append_last y [] = refl
length-append_last y (x ∷ xs) = ap suc (length-append_last y xs)

-- `graph[u].emplace_back(v, w)`
abbrev added : Edge → Graph → Graph
added e g = update g e.from_vertex (g e.from_vertex ++ (e.to_vertex, e.weight) ∷ [])

abbrev Stems : List Edge → ℕ → ℕ × ℕ → Type 0
Stems es u p = (e : Edge) × In e es × (e.from_vertex ≡ u) × (p ≡ (e.to_vertex, e.weight))

load_graph-In :
    (es : List Edge) (g : Graph) (u : ℕ) (p : ℕ × ℕ)
    → In p (load_graph es g u)
    → In p (g u) ⊎ Stems es u p
unfolding load_graph
load_graph-In [] g u p h = inl h
load_graph-In (e ∷ es) g u p h = elim (load_graph-In es (added e g) u p h) [
  | inl j ↦ elim (Bool-cases (u == e.from_vertex)) [
    | inl q ↦
        let k = ==→eq u e.from_vertex q in
        let at =
          ap (added e g) k
          ∙ update_self g e.from_vertex (g e.from_vertex ++ (e.to_vertex, e.weight) ∷ []) in
        elim (In-append p (e.to_vertex, e.weight) (g e.from_vertex) (subst (In p) at j)) [
          | inl z ↦ inl (subst (λ y. In p (g y)) (sym k) z)
          | inr z ↦ inr (e, inl refl, sym k, z)
        ]
    | inr q ↦ inl (
        subst (In p)
          (update_other g e.from_vertex (g e.from_vertex ++ (e.to_vertex, e.weight) ∷ []) u
            (==→ne u e.from_vertex q))
          j)
  ]
  | inr (f, j, a, b) ↦ inr (f, inr j, a, b)
]

load_graph-keeps :
    (es : List Edge) (g : Graph) (u : ℕ) (p : ℕ × ℕ) → In p (g u) → In p (load_graph es g u)
unfolding load_graph
load_graph-keeps [] g u p h = h
load_graph-keeps (e ∷ es) g u p h =
    load_graph-keeps es (added e g) u p (elim (Bool-cases (u == e.from_vertex)) [
      | inl q ↦
          let k = ==→eq u e.from_vertex q in
          let at =
            ap (added e g) k
            ∙ update_self g e.from_vertex (g e.from_vertex ++ (e.to_vertex, e.weight) ∷ []) in
          subst (In p) (sym at) (
            In-append_left p (g e.from_vertex) ((e.to_vertex, e.weight) ∷ [])
              (subst (λ y. In p (g y)) k h))
      | inr q ↦
          subst (In p)
            (sym (
              update_other g e.from_vertex (g e.from_vertex ++ (e.to_vertex, e.weight) ∷ []) u
                (==→ne u e.from_vertex q)))
            h
    ])

load_graph-has :
    (es : List Edge) (g : Graph) (e : Edge)
    → In e es
    → In (e.to_vertex, e.weight) (load_graph es g e.from_vertex)
unfolding load_graph
load_graph-has [] g e h = elim h [ ]
load_graph-has (f ∷ es) g e (inl p) =
    subst (λ (x : Edge). In (x.to_vertex, x.weight) (load_graph es (added f g) x.from_vertex))
      (sym p)
      (load_graph-keeps es (added f g) f.from_vertex (f.to_vertex, f.weight)
        (subst (In (f.to_vertex, f.weight))
          (sym (update_self g f.from_vertex (g f.from_vertex ++ (f.to_vertex, f.weight) ∷ [])))
          (In-append_last (f.to_vertex, f.weight) (g f.from_vertex))))
load_graph-has (f ∷ es) g e (inr h) = load_graph-has es (added f g) e h

-- The edges from a vertex, and those from vertices that are not settled.
leaving : ℕ → List Edge → ℕ
leaving u [] = 0
leaving u (e ∷ es) = (if u == e.from_vertex then 1 else 0) + leaving u es

pub pending : List Edge → (ℕ → Option ℕ) → ℕ
pending [] r = 0
pending (e ∷ es) r = (if seen (r e.from_vertex) then 0 else 1) + pending es r

load_graph-length :
    (es : List Edge) (g : Graph) (u : ℕ) → length (load_graph es g u) ≡ length (g u) + leaving u es
unfolding load_graph leaving
load_graph-length [] g u = omega arith
load_graph-length (e ∷ es) g u =
    let ih = load_graph-length es (added e g) u in
    let xs = g e.from_vertex ++ (e.to_vertex, e.weight) ∷ [] in
    elim (Bool-cases (u == e.from_vertex)) [
      | inl q ↦
          let k = ==→eq u e.from_vertex q in
          let at = ap length (ap (added e g) k ∙ update_self g e.from_vertex xs) in
          let one = length-append_last (e.to_vertex, e.weight) (g e.from_vertex) in
          let back = ap (λ y. length (g y)) k in rw q (omega arith)
      | inr q ↦
          let at = ap length (update_other g e.from_vertex xs u (==→ne u e.from_vertex q)) in
          rw q (omega arith)
    ]

pending-drops :
    (es : List Edge) (r : ℕ → Option ℕ) (a d : ℕ)
    → r a ≡ none
    → pending es (update r a (some d)) + leaving a es ≡ pending es r
unfolding pending leaving seen
pending-drops [] r a d h = refl
pending-drops (e ∷ es) r a d h =
    let ih = pending-drops es r a d h in
    elim (Bool-cases (a == e.from_vertex)) [
      | inl q ↦
          let k = ==→eq a e.from_vertex q in let at = sym (ap r k) ∙ h in rw (q, at) (omega arith)
      | inr q ↦ rw q (omega arith)
    ]

pub pending-le : (es : List Edge) (r : ℕ → Option ℕ) → pending es r ≤ size es
unfolding pending
pending-le [] r = omega arith
pending-le (e ∷ es) r = let ih = pending-le es r in ground arith

nothing : Graph
nothing v = []

module _ (es : List Edge) where
  abbrev pub graph : Graph
  graph = load_graph es (λ v. [])

  pub Walk-Route : {v x : ℕ} → Walk graph v x → Route es v x
  Walk-Route Invariant.Walk.here = here
  Walk-Route (Invariant.Walk.along {u} {d} {v} {x} w r j p) =
      elim (load_graph-In es (λ v. []) u (v, w) j) [
        | inl z ↦ absurd z
        | inr (e, k, a, b) ↦
            let bw = ap (λ (y : ℕ × ℕ). y.1) b in
            Route.along e (Walk-Route r) k a (sym (ap (λ (y : ℕ × ℕ). y.0) b)) (omega arith)
      ]

  pub Route-Walk : {v x : ℕ} → Route es v x → Walk graph v x
  Route-Walk Route.here = Invariant.Walk.here
  Route-Walk (Route.along {u} {d} {v} {x} e r k a b p) =
      let j = load_graph-has es (λ v. []) e k in
      Invariant.Walk.along e.weight (Route-Walk r)
        (subst (λ y. In (y, e.weight) (graph u)) b
          (subst (λ y. In (e.to_vertex, e.weight) (graph y)) a j))
        p

  pub weights : Small es → Weights graph
  weights small u v w j = elim (load_graph-In es (λ v. []) u (v, w) j) [
    | inl z ↦ absurd z
    | inr (e, k, a, b) ↦
        let bw = ap (λ (y : ℕ × ℕ). y.1) b in let l = Small-In es e small k in omega arith
  ]

  pub drops :
      (r : ℕ → Option ℕ) (a d : ℕ)
      → r a ≡ none
      → pending es (update r a (some d)) + length (graph a) ≡ pending es r
  drops r a d h =
      let n = load_graph-length es (λ v. []) a in let k = pending-drops es r a d h in omega arith
