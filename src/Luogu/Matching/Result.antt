-- ===== src/Luogu/Matching/Result.antt =====
-- What the program prints.
use my_practise.Base.{
  ℕ, zero, suc, ◌+◌, ◌≤◌, ◌≡◌, ◌≢◌, ◌⊎◌, inl, inr, refl, ap, subst, ◌∙◌, Bool, true, false, Option,
  some, ltb, ◌==◌, if◌then◌else◌, Bool-cases, arith,
}
use mathlib.Core.Option
use my_practise.Luogu.Matching.{State, Graph, dfs, clear, tally, match_all, main}
use my_practise.Luogu.Matching.Counts.{count, unseen-le, elem, InRange}
use my_practise.Luogu.Matching.Augment.{Augments, Returns, dfs-Returns}

-- Before the loop reaches the left vertex i: the left vertices below i have at most one partner each,
-- the others none, and `ret` right vertices are taken.
record Matched (a : Graph) (m i ret : ℕ) (s : State) : Type 0 where
  singles : (x : ℕ) → count (suc x) s.con m ≤ (if ltb (suc x) i then 1 else 0)
  taken : ret + count 0 s.con m ≡ m
  edges : (w : ℕ) → s.con w ≢ 0 → elem w (a (s.con w)) ≡ true

tally-Matched :
    (a : Graph) (m i ret : ℕ) (s t : State) (found : Bool)
    → 1 ≤ i
    → Matched a m i ret s
    → Augments a m i (clear s) found t
    → Matched a m (suc i) (tally ret (found, t)).0 (tally ret (found, t)).1
tally-Matched a m i ret s t true lo k g = record {
  singles = λ x. ground (arith, k.singles x, g.moves (suc x));
  taken = ground (arith, k.taken, g.moves 0);
  edges = g.edges k.edges;
}
tally-Matched a m i ret s t false lo k g = record {
  singles = λ x. ground (arith, k.singles x, g.moves (suc x));
  taken = ground (arith, k.taken, g.moves 0);
  edges = g.edges k.edges;
}

abbrev Prints : Graph → ℕ → ℕ → Option (ℕ × State) → Type 0
Prints a m i r = (ret : ℕ) × (t : State) × (r ≡ some (ret, t)) × Matched a m i ret t

-- One round, given what the rounds behind it do.
round-Prints :
    (a : Graph) (m rounds i j ret : ℕ) (s : State)
    → 1 ≤ i
    → Matched a m i ret s
    → Returns a m i (clear s) (dfs a (suc m) i (clear s))
    → ((ret' : ℕ) (t : State)
        → Matched a m (suc i) ret' t
        → Prints a m j (match_all a (suc m) rounds (suc i) ret' t))
    → Prints a m j (match_all a (suc m) (suc rounds) i ret s)
unfolding match_all Option.bind
round-Prints a m rounds i j ret s lo k (found, t, q, g) rest =
    let next =
      λ (f : Bool × State). match_all a (suc m) rounds (suc i) (tally ret f).0 (tally ret f).1 in
    let (r, t', q', g') =
      rest (tally ret (found, t)).0 (tally ret (found, t)).1
        (tally-Matched a m i ret s t found lo k g) in
    (r, t', ap (λ o. Option.bind o next) q ∙ q', g')

match_all-Prints :
    (a : Graph) (m : ℕ)
    → ((u : ℕ) → InRange m (a u))
    → (rounds i j ret : ℕ) (s : State) → 1 ≤ i
    → j ≡ i + rounds
    → Matched a m i ret s
    → Prints a m j (match_all a (suc m) rounds i ret s)
unfolding match_all Option.bind
match_all-Prints a m range zero i j ret s lo e k =
    (ret, s, refl, subst (λ l. Matched a m l ret s) (omega (arith, e)) k)
match_all-Prints a m range (suc rounds) i j ret s lo e k =
    round-Prints a m rounds i j ret s lo k
      (dfs-Returns a m range (suc m) i (clear s) (omega (arith, unseen-le (clear s).vis m)))
      (λ ret' t h.
        match_all-Prints a m range rounds (suc i) j ret' t (omega arith) (omega (arith, e)) h)

count-none : (x m : ℕ) → count (suc x) (λ _. 0) m ≡ 0
unfolding count
count-none x zero = refl
count-none x (suc m) = ground (arith, count-none x m)

count-all : (m : ℕ) → count 0 (λ _. 0) m ≡ m
unfolding count
count-all zero = refl
count-all (suc m) = ground (arith, count-all m)

-- Where every edge leads to a right vertex from 1 to m, the program returns, having made a
-- matching: no left vertex has two partners, every pair is an edge, and the number printed is that
-- of the right vertices with a partner.
pub main_matching :
    (a : Graph) (n m : ℕ)
    → ((u : ℕ) → InRange m (a u))
    → (ret : ℕ) × (t : State) × (main a n m ≡ some (ret, t))
      × ((x : ℕ) → count (suc x) t.con m ≤ 1)
      × (ret + count 0 t.con m ≡ m)
      × ((w : ℕ) → (t.con w ≡ 0) ⊎ (elem w (a (t.con w)) ≡ true))
unfolding main
main_matching a n m range =
    let start : State = record { con = λ _. 0; vis = λ _. false } in
    let (ret, t, e, k) = match_all-Prints a m range n 1 (1 + n) 0 start (omega arith) refl (record {
      singles = λ x. ground (arith, count-none x m);
      taken = ground (arith, count-all m);
      edges = λ w ne. absurd (ne refl);
    }) in
    (
      ret,
      t,
      e,
      λ x. ground (arith, k.singles x),
      k.taken,
      λ w. elim (Bool-cases (t.con w == 0)) [
        | inl z ↦ inl (ground (arith, z))
        | inr z ↦ inr (k.edges w (ground (arith, z)))
      ],
    )
