-- ===== src/Luogu/Dijkstra/Entries.antt =====
-- The queue: what `emplace` does to a list in order.
use my_practise.Base.{
  ℕ, suc, ◌≤◌, ◌≡◌, refl, sym, ap, subst, true, false, List, [], ◌∷◌, ◌⊎◌, inl, inr, Bool-cases,
  length, arith,
}
use my_practise.Luogu.Dijkstra.{before, emplace}

abbrev pub In : {A : Type 0} → A → List A → Type 0
In x [] = ⊥
In x (y ∷ ys) = (x ≡ y) ⊎ In x ys

-- No entry is nearer than d.
abbrev pub Above : ℕ → List (ℕ × ℕ) → Type 0
Above d [] = Unit
Above d ((e, u) ∷ q) = (d ≤ e) × Above d q

abbrev pub Ascending : List (ℕ × ℕ) → Type 0
Ascending [] = Unit
Ascending ((d, v) ∷ q) = Above d q × Ascending q

pub Above-In : (d e u : ℕ) (q : List (ℕ × ℕ)) → Above d q → In (e, u) q → d ≤ e
Above-In d e u [] a h = elim h [ ]
Above-In d e u ((f, v) ∷ q) (l, a) (inl p) = subst (λ x. d ≤ x) (sym (ap (λ (x : ℕ × ℕ). x.0) p)) l
Above-In d e u ((f, v) ∷ q) (l, a) (inr i) = Above-In d e u q a i

Above-lower : (d e : ℕ) (q : List (ℕ × ℕ)) → d ≤ e → Above e q → Above d q
Above-lower d e [] h a = tt
Above-lower d e ((f, v) ∷ q) h (l, a) = (omega arith, Above-lower d e q h a)

pub In-emplace_self : (x : ℕ × ℕ) (q : List (ℕ × ℕ)) → In x (emplace x q)
unfolding emplace
In-emplace_self x [] = inl refl
In-emplace_self x (y ∷ q) = elim (Bool-cases (before x y)) [
  | inl e ↦ rw e (inl refl)
  | inr e ↦ rw e (inr (In-emplace_self x q))
]

pub In-emplace_old : (x z : ℕ × ℕ) (q : List (ℕ × ℕ)) → In z q → In z (emplace x q)
unfolding emplace
In-emplace_old x z [] h = elim h [ ]
In-emplace_old x z (y ∷ q) h = elim (Bool-cases (before x y)) [
  | inl e ↦ rw e (inr h)
  | inr e ↦ rw e (elim h [ inl p ↦ inl p | inr i ↦ inr (In-emplace_old x z q i) ])
]

pub In-emplace : (x z : ℕ × ℕ) (q : List (ℕ × ℕ)) → In z (emplace x q) → (z ≡ x) ⊎ In z q
unfolding emplace
In-emplace x z [] (inl p) = inl p
In-emplace x z [] (inr h) = elim h [ ]
In-emplace x z (y ∷ q) h = elim (Bool-cases (before x y)) [
  | inl e ↦ rw e at h
  | inr e ↦
      let k : In z (y ∷ emplace x q) = rw e at h in
      elim k [
        | inl p ↦ inr (inl p)
        | inr i ↦ elim (In-emplace x z q i) [ inl p ↦ inl p | inr j ↦ inr (inr j) ]
      ]
]

pub Above-emplace : (d e u : ℕ) (q : List (ℕ × ℕ)) → d ≤ e → Above d q → Above d (emplace (e, u) q)
unfolding emplace
Above-emplace d e u [] h a = (h, tt)
Above-emplace d e u ((f, v) ∷ q) h (l, a) = elim (Bool-cases (before (e, u) (f, v))) [
  | inl p ↦ rw p (h, (l, a))
  | inr p ↦ rw p (l, Above-emplace d e u q h a)
]

before-le : (d v e u : ℕ) → before (d, v) (e, u) ≡ true → d ≤ e
before-le d v e u h = ground arith

not_before-le : (d v e u : ℕ) → before (d, v) (e, u) ≡ false → e ≤ d
not_before-le d v e u h = ground arith

pub emplace-Ascending : (e u : ℕ) (q : List (ℕ × ℕ)) → Ascending q → Ascending (emplace (e, u) q)
unfolding emplace
emplace-Ascending e u [] a = (tt, tt)
emplace-Ascending e u ((f, v) ∷ q) (h, a) = elim (Bool-cases (before (e, u) (f, v))) [
  | inl p ↦ let l = before-le e u f v p in rw p ((l, Above-lower e f q l h), (h, a))
  | inr p ↦
      let l = not_before-le e u f v p in rw p (Above-emplace f e u q l h, emplace-Ascending e u q a)
]

pub length-emplace : (x : ℕ × ℕ) (q : List (ℕ × ℕ)) → length (emplace x q) ≡ suc (length q)
unfolding emplace
length-emplace x [] = refl
length-emplace x (y ∷ q) = elim (Bool-cases (before x y)) [
  | inl e ↦ rw e refl
  | inr e ↦ rw e (ap suc (length-emplace x q))
]
