-- ===== src/Luogu/Dijkstra/Relaxed.antt =====
-- What the loop over the children keeps and reaches.
use my_practise.Base.{
  ℕ, ◌+◌, ◌^◌, ◌≤◌, ◌<◌, ◌≡◌, ◌≢◌, refl, sym, ap, ◌∙◌, subst, none, some, List, [], ◌∷◌, inl, inr,
  ltb, ltb→lt, ltb→ge, lt→ltb, ◌==◌, ==→eq, ==→ne, Bool-cases, length, update, arith,
}
use mathlib.Core.Option
use my_practise.Luogu.Dijkstra.{
  Graph, Search, infinity, emplace, seen, add_long, improve, relax, relax_all,
}
use my_practise.Luogu.Dijkstra.Entries.{
  In, In-emplace_self, In-emplace_old, In-emplace, Above-emplace, emplace-Ascending, length-emplace,
}
use my_practise.Luogu.Dijkstra.Invariant.{
  Walk, Sound, Reached, update_self, update_other, waiting-le, Onward, Reached-Onward, seen-some,
  seen-none,
}

module _ (g : Graph) (s : Search) (i : Sound g s) where
  -- A shorter distance.
  improved :
      (x child : ℕ)
      → s.ret child ≡ none
      → Walk g child x
      → ((u e : ℕ) → s.ret u ≡ some e → e ≤ x)
      → x < s.dis child
      → Sound g (record s { dis = update s.dis child x; pq = emplace (x, child) s.pq })
  improved x child new w most lt =
      let dis' = update s.dis child x in
      let pq' = emplace (x, child) s.pq in
      let bound = waiting-le g s i child new in
      record {
        entries = λ d v h. elim (In-emplace (x, child) (d, v) s.pq h) [
          | inl e ↦
              let p = ap (λ (y : ℕ × ℕ). y.0) e in
              let q = ap (λ (y : ℕ × ℕ). y.1) e in
              (subst (λ y. Walk g y d) (sym q) (subst (λ y. Walk g child y) (sym p) w), omega arith)
          | inr j ↦ i.entries d v j
        ];
        sorted = emplace-Ascending x child s.pq i.sorted;
        settled = i.settled;
        below = λ u d h. Above-emplace d x child s.pq (most u d h) (i.below u d h);
        waiting = λ v h. elim (Bool-cases (v == child)) [
          | inl e ↦
              let p = ==→eq v child e in
              inr (
                subst (λ y. In (dis' y, y) pq') (sym p)
                  (subst (λ y. In (y, child) pq') (sym (update_self s.dis child x))
                    (In-emplace_self (x, child) s.pq)))
          | inr e ↦
              let p = update_other s.dis child x v (==→ne v child e) in
              elim (i.waiting v h) [
                | inl k ↦ inl (p ∙ k)
                | inr k ↦ inr (
                    subst (λ y. In (y, v) pq') (sym p)
                      (In-emplace_old (x, child) (s.dis v, v) s.pq k))
              ]
        ];
        source_waits = λ h.
            let z = i.source_waits h in
            let n : 1 ≢ child = λ e. (let k = ap s.dis e in absurd (omega arith)) in
            update_other s.dis child x 1 n ∙ z;
        source_done = i.source_done;
      }

  lowered : (x child v : ℕ) → x < s.dis child → update s.dis child x v ≤ s.dis v
  lowered x child v h = elim (Bool-cases (v == child)) [
    | inl e ↦
        let p = ==→eq v child e in
        let k = ap s.dis p in
        let u = ap (update s.dis child x) p ∙ update_self s.dis child x in omega arith
    | inr e ↦ let k = update_other s.dis child x v (==→ne v child e) in omega arith
  ]

-- What relaxing from s leads to; `grown` bounds the new entries.
pub record Relaxes (g : Graph) (s s' : Search) (grown : ℕ) : Type 0 where
  pub sound : Sound g s'
  pub onward : Onward s s'
  pub room : length s'.pq ≤ length s.pq + grown

add_long-small : (x y : ℕ) → x ≤ infinity → y < 2 ^ 31 → add_long x y ≡ some (x + y)
unfolding add_long
add_long-small x y h k = rw (lt→ltb (x + y) (2 ^ 63) (omega arith))

improve-Relaxes :
    (g : Graph) (s : Search) (x child : ℕ)
    → Sound g s
    → s.ret child ≡ none
    → Walk g child x
    → ((u e : ℕ) → s.ret u ≡ some e → e ≤ x)
    → Relaxes g s (improve x child s) 1 × Reached (improve x child s) child x
unfolding improve
improve-Relaxes g s x child i new w most = elim (Bool-cases (ltb x (s.dis child))) [
  | inl e ↦
      let lt = ltb→lt x (s.dis child) e in
      let size = length-emplace (x, child) s.pq in
      let at = update_self s.dis child x in
      rw e (
        record {
          sound = improved g s i x child new w most lt;
          onward = record { same = refl; lower = λ v. lowered g s i x child v lt };
          room = omega arith;
        },
        inr (new, omega arith),
      )
  | inr e ↦
      let ge = ltb→ge x (s.dis child) e in
      rw e (
        record {
          sound = i;
          onward = record { same = refl; lower = λ v. omega arith };
          room = omega arith;
        },
        inr (new, ge),
      )
]

pub relax-Relaxes :
    (g : Graph) (s : Search) (ndis child cdis : ℕ)
    → Sound g s
    → Walk g child (ndis + cdis)
    → ndis ≤ infinity
    → cdis < 2 ^ 31
    → ((u e : ℕ) → s.ret u ≡ some e → e ≤ ndis)
    → (s' : Search) × (relax ndis child cdis s ≡ some s')
      × Relaxes g s s' 1
      × Reached s' child (ndis + cdis)
unfolding relax
relax-Relaxes g s ndis child cdis i w h k most = elim (Bool-cases (seen (s.ret child))) [
  | inl e ↦
      let (d, p) = seen-some (s.ret child) e in
      let l = most child d p in
      (
        s,
        rw e,
        record {
          sound = i;
          onward = record { same = refl; lower = λ v. omega arith };
          room = omega arith;
        },
        inl (d, p, omega arith),
      )
  | inr e ↦
      let x = ndis + cdis in
      let r =
        improve-Relaxes g s x child i (seen-none (s.ret child) e) w
          (λ u d q. (let l = most u d q in omega arith)) in
      (improve x child s, rw (e, add_long-small ndis cdis h k), r.0, r.1)
]

-- Every child leads on, by a weight of the type `int`.
abbrev pub Childs : Graph → ℕ → List (ℕ × ℕ) → Type 0
Childs g ndis [] = Unit
Childs g ndis ((v, w) ∷ cs) = Walk g v (ndis + w) × (w < 2 ^ 31) × Childs g ndis cs

pub relax_all-Relaxes :
    (g : Graph) (ndis : ℕ) (cs : List (ℕ × ℕ)) (s : Search)
    → Childs g ndis cs
    → Sound g s
    → ndis ≤ infinity
    → ((u e : ℕ) → s.ret u ≡ some e → e ≤ ndis)
    → (s' : Search) × (relax_all ndis cs s ≡ some s')
      × Relaxes g s s' (length cs)
      × ((v w : ℕ) → In (v, w) cs → Reached s' v (ndis + w))
unfolding relax_all Option.bind
relax_all-Relaxes g ndis [] s c i h most = (
  s,
  refl,
  record {
    sound = i;
    onward = record { same = refl; lower = λ v. omega arith };
    room = omega arith;
  },
  λ v w z. absurd z,
)
relax_all-Relaxes g ndis ((child, cdis) ∷ cs) s (w, k, c) i h most =
    let (s1, run1, r1, got) = relax-Relaxes g s ndis child cdis i w h k most in
    let (s2, run2, r2, rest) =
      relax_all-Relaxes g ndis cs s1 c r1.sound h
        (λ u e p. most u e (sym (ap (λ f. f u) r1.onward.same) ∙ p)) in
    let room1 = r1.room in
    let room2 = r2.room in
    (
      s2,
      rw run1 run2,
      record {
        sound = r2.sound;
        onward = record {
          same = r2.onward.same ∙ r1.onward.same;
          lower = λ v. (let a = r1.onward.lower v in let b = r2.onward.lower v in omega arith);
        };
        room = omega arith;
      },
      λ v x z. elim z [
        | inl p ↦
            let pv = ap (λ (y : ℕ × ℕ). y.0) p in
            let pw = ap (λ (y : ℕ × ℕ). y.1) p in
            subst (λ y. Reached s2 y (ndis + x)) (sym pv)
              (subst (λ y. Reached s2 child (ndis + y)) (sym pw)
                (Reached-Onward s1 s2 child (ndis + cdis) r2.onward got))
        | inr j ↦ rest v x j
      ],
    )
