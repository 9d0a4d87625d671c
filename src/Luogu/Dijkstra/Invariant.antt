-- ===== src/Luogu/Dijkstra/Invariant.antt =====
-- What holds of the search between two accesses to the queue.
use my_practise.Base.{
  ℕ, ◌+◌, ◌≤◌, ◌≡◌, ◌≢◌, refl, sym, ap, ◌∙◌, true, false, Option, none, some, ◌⊎◌, inl, inr, eq→==,
  ne→==, update, arith,
}
use my_practise.Luogu.Dijkstra.{Graph, Search, infinity, seen}
use my_practise.Luogu.Dijkstra.Entries.{In, Above, Ascending}

-- The walks from the vertex 1, with their lengths.
pub data Walk (g : Graph) : ℕ → ℕ → Type 0 where
  here : Walk g 1 0
  along : {u d v x : ℕ} (w : ℕ) → Walk g u d → In (v, w) (g u) → d + w ≡ x → Walk g v x

-- What holds at the queue's loop, but for the edges of settled vertices.
pub record Sound (g : Graph) (s : Search) : Type 0 where
  pub entries : (d v : ℕ) → In (d, v) s.pq → Walk g v d × (d ≤ infinity)
  pub sorted : Ascending s.pq
  pub settled : (u d : ℕ) → s.ret u ≡ some d → Walk g u d × (d ≤ infinity)
  pub below : (u d : ℕ) → s.ret u ≡ some d → Above d s.pq
  pub waiting : (v : ℕ) → s.ret v ≡ none → (s.dis v ≡ infinity) ⊎ In (s.dis v, v) s.pq
  pub source_waits : s.ret 1 ≡ none → s.dis 1 ≡ 0
  pub source_done : (d : ℕ) → s.ret 1 ≡ some d → d ≡ 0

-- The vertex v is settled or known within x.
abbrev pub Reached : Search → ℕ → ℕ → Type 0
Reached s v x = ((e : ℕ) × (s.ret v ≡ some e) × (e ≤ x)) ⊎ ((s.ret v ≡ none) × (s.dis v ≤ x))

pub update_self {ℓ} : {A : Type ℓ} (f : ℕ → A) (a : ℕ) (v : A) → update f a v a ≡ v
update_self f a v = rw (eq→== a a refl)

pub update_other {ℓ} :
    {A : Type ℓ} (f : ℕ → A) (a : ℕ) (v : A) (b : ℕ) → b ≢ a → update f a v b ≡ f b
update_other f a v b n = rw (ne→== a b (λ e. n (sym e)))

pub waiting-le :
    (g : Graph) (s : Search) → Sound g s → (v : ℕ) → s.ret v ≡ none → s.dis v ≤ infinity
waiting-le g s i v h = elim (i.waiting v h) [
  | inl e ↦ omega arith
  | inr e ↦ (i.entries (s.dis v) v e).1
]

-- From s to s' no vertex is settled, and no distance grows.
pub record Onward (s s' : Search) : Type 0 where
  pub same : s'.ret ≡ s.ret
  pub lower : (v : ℕ) → s'.dis v ≤ s.dis v

pub Reached-Onward : (s s' : Search) (v x : ℕ) → Onward s s' → Reached s v x → Reached s' v x
Reached-Onward s s' v x o (inl (e, h, l)) = inl (e, ap (λ f. f v) o.same ∙ h, l)
Reached-Onward s s' v x o (inr (h, l)) =
    let k = o.lower v in inr (ap (λ f. f v) o.same ∙ h, omega arith)

pub seen-some : (r : Option ℕ) → seen r ≡ true → (e : ℕ) × (r ≡ some e)
unfolding seen
seen-some (some e) h = (e, refl)
seen-some none h = cc

pub seen-none : (r : Option ℕ) → seen r ≡ false → r ≡ none
unfolding seen
seen-none (some e) h = cc
seen-none none h = refl
