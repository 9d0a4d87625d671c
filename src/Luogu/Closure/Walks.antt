-- ===== src/Luogu/Closure/Walks.antt =====
-- The closure has exactly the pairs that are joined by a walk.
use my_practise.Base.{
  ℕ, zero, suc, ◌+◌, ◌≤◌, ◌<◌, ◌≡◌, ◌≢◌, ◌↔◌, ◌⊎◌, inl, inr, refl, sym, ◌∙◌, Bool, true, ◌&&◌, ◌||◌,
  ◌==◌, Bool-cases, eq→==, subst, dec_lt, arith,
}
use my_practise.Luogu.Closure.{Matrix, relax, relax_rows, relax_all, closure}

-- A walk of one edge or more; the vertices between its ends are below n.
pub data Walk (n : ℕ) (a : Matrix) : ℕ → ℕ → Type 0 where
  edge : {i j : ℕ} → a i j ≡ true → Walk n a i j
  join : {i j : ℕ} (k : ℕ) → k < n → Walk n a i k → Walk n a k j → Walk n a i j

relax-row : (k i : ℕ) (a : Matrix) (j : ℕ) → relax k i a i j ≡ (a i j || (a i k && a k j))
unfolding relax
relax-row k i a j = ground (arith, eq→== i i refl)

relax-other : (k i : ℕ) (a : Matrix) (i' j : ℕ) → i' ≢ i → relax k i a i' j ≡ a i' j
unfolding relax
relax-other k i a i' j h = ground (arith, h)

relax_self : (k i : ℕ) (a : Matrix) (j : ℕ) → relax k i a k j ≡ a k j
unfolding relax
relax_self k i a j = ground arith

relax_rows-outside :
    (k rounds i : ℕ) (a : Matrix) (i' j : ℕ) → i' < i → relax_rows k rounds i a i' j ≡ a i' j
unfolding relax_rows
relax_rows-outside k zero i a i' j h = refl
relax_rows-outside k (suc rounds) i a i' j h =
    relax_rows-outside k rounds (suc i) (relax k i a) i' j (omega arith)
    ∙ relax-other k i a i' j (omega arith)

relax_rows-behind :
    (k rounds i : ℕ) (a : Matrix) (i' j : ℕ)
    → i + rounds ≤ i'
    → relax_rows k rounds i a i' j ≡ a i' j
unfolding relax_rows
relax_rows-behind k zero i a i' j h = refl
relax_rows-behind k (suc rounds) i a i' j h =
    relax_rows-behind k rounds (suc i) (relax k i a) i' j (omega arith)
    ∙ relax-other k i a i' j (omega arith)

pub relax_rows-row :
    (k rounds i : ℕ) (a : Matrix) (i' j : ℕ)
    → i ≤ i'
    → i' < i + rounds
    → relax_rows k rounds i a i' j ≡ (a i' j || (a i' k && a k j))
unfolding relax_rows
relax_rows-row k zero i a i' j h h' = ground arith
relax_rows-row k (suc rounds) i a i' j h h' = elim (Bool-cases (i' == i)) [
  | inl e ↦
      let p : i' ≡ i = ground (arith, e) in
      relax_rows-outside k rounds (suc i) (relax k i a) i' j (omega arith)
      ∙ subst (λ x. relax k i a x j ≡ (a x j || (a x k && a k j))) (sym p) (relax-row k i a j)
  | inr e ↦
      let p : i' ≢ i = ground (arith, e) in
      relax_rows-row k rounds (suc i) (relax k i a) i' j (ground arith) (omega arith)
      ∙ ground (arith, relax-other k i a i' j p, relax-other k i a i' k p, relax_self k i a j)
]

-- Every entry that is set is a walk.
pub Sound : ℕ → Matrix → Matrix → Type 0
Sound n a b = (i j : ℕ) → b i j ≡ true → Walk n a i j

-- Either the entry was set, or its row has k and the row k has it.
or-cases : (x y z : Bool) → (x || (y && z)) ≡ true → (x ≡ true) ⊎ ((y ≡ true) × (z ≡ true))
or-cases x y z h = ground (arith, h)

relax_rows-Sound : (n k : ℕ) (a b : Matrix) → k < n → Sound n a b → Sound n a (relax_rows k n 0 b)
unfolding Sound
relax_rows-Sound n k a b h s i j e = elim (dec_lt i n) [
  | yes l ↦
      elim (or-cases (b i j) (b i k) (b k j)
        (sym (relax_rows-row k n 0 b i j (omega arith) (omega arith)) ∙ e)) [
          | inl p ↦ s i j p
          | inr (p, q) ↦ join k h (s i k p) (s k j q)
        ]
  | no l ↦ s i j (sym (relax_rows-behind k n 0 b i j (omega arith)) ∙ e)
]

relax_all-Sound :
    (n rounds k : ℕ) (a b : Matrix)
    → k + rounds ≤ n
    → Sound n a b
    → Sound n a (relax_all n rounds k b)
unfolding relax_all
relax_all-Sound n zero k a b h s = s
relax_all-Sound n (suc rounds) k a b h s =
    relax_all-Sound n rounds (suc k) a (relax_rows k n 0 b) (omega arith)
      (relax_rows-Sound n k a b (omega arith) s)

-- Walks that meet at a vertex below c are joined already, for the rows below n.
pub Joined : ℕ → ℕ → Matrix → Type 0
Joined n c b = (i m j : ℕ) → i < n → m < c → b i m ≡ true → b m j ≡ true → b i j ≡ true

relax_rows-Joined :
    (n k : ℕ) (b : Matrix) → k < n → Joined n k b → Joined n (suc k) (relax_rows k n 0 b)
unfolding Joined
relax_rows-Joined n k b h q i m j l l' e e' =
    let row = λ (x y : ℕ) (g : x < n). relax_rows-row k n 0 b x y (omega arith) (omega arith) in
    elim (dec_lt m k) [
      | yes g ↦ ground (
        arith,
        row i j l,
        row i m l,
        row m j (omega arith),
        q i m j l g,
        q i m k l g,
        q k m j h g,
      )
      | no g ↦
          let p : m ≡ k = omega arith in
          let f = subst (λ x. relax_rows k n 0 b i x ≡ true) p e in
          let f' = subst (λ x. relax_rows k n 0 b x j ≡ true) p e' in
          ground (arith, f, f', row i j l, row i k l, row k j h)
    ]

relax_rows-keeps :
    (n k : ℕ) (b : Matrix) (i j : ℕ) → i < n → b i j ≡ true → relax_rows k n 0 b i j ≡ true
relax_rows-keeps n k b i j h e =
    relax_rows-row k n 0 b i j (omega arith) (omega arith) ∙ ground (arith, e)

relax_all-keeps :
    (n rounds k : ℕ) (b : Matrix) (i j : ℕ)
    → i < n
    → b i j ≡ true
    → relax_all n rounds k b i j ≡ true
unfolding relax_all
relax_all-keeps n zero k b i j h e = e
relax_all-keeps n (suc rounds) k b i j h e =
    relax_all-keeps n rounds (suc k) (relax_rows k n 0 b) i j h (relax_rows-keeps n k b i j h e)

relax_all-Joined :
    (n rounds k : ℕ) (b : Matrix)
    → k + rounds ≡ n
    → Joined n k b
    → Joined n n (relax_all n rounds k b)
unfolding relax_all
relax_all-Joined n zero k b h q = subst (λ c. Joined n c b) (ground (arith, h)) q
relax_all-Joined n (suc rounds) k b h q =
    relax_all-Joined n rounds (suc k) (relax_rows k n 0 b) (omega arith)
      (relax_rows-Joined n k b (omega arith) q)

Walk-closed :
    (n : ℕ) (a b : Matrix)
    → Joined n n b
    → ((i j : ℕ) → i < n → a i j ≡ true → b i j ≡ true)
    → (i j : ℕ) → i < n
    → Walk n a i j
    → b i j ≡ true
unfolding Joined
Walk-closed n a b q keep i j h (edge e) = keep i j h e
Walk-closed n a b q keep i j h (join k l w w') =
    q i k j h l (Walk-closed n a b q keep i k h w) (Walk-closed n a b q keep k j l w')

-- For a vertex i of the graph the program's matrix has (i, j) exactly if a walk leads from i to j.
pub closure-Walk : (n : ℕ) (a : Matrix) (i j : ℕ) → i < n → (closure n a i j ≡ true) ↔ Walk n a i j
unfolding closure Sound Joined
closure-Walk n a i j h = (
  relax_all-Sound n n 0 a a (omega arith) (λ i j e. edge e) i j,
  Walk-closed n a (closure n a)
      (relax_all-Joined n n 0 a (omega arith) (λ i m j l l'. ground arith))
      (relax_all-keeps n n 0 a) i j h,
)
