-- ===== src/Lockfree/Stack/Threads/Ghosts.antt =====
-- The nodes of the stack from the top down, which of them a thread makes or has taken off, and what
-- they mean for a thread at each place.
use my_practise.Base.{
  ℕ, ◌≡◌, ◌≢◌, refl, sym, ◌∙◌, subst, Bool, false, Option, none, some, List, [], ◌∷◌, ◌⊎◌, inl, inr,
  ◌==◌, Bool-cases, arith,
}
use my_practise.Lockfree.Calls.{Call, Atomic}
use my_practise.Lockfree.Stack.{Push, Pop, assign}
use my_practise.Lockfree.Stack.Chain.{Cells, Chain}
use my_practise.Lockfree.Stack.Threads.{Thread, Machine, Listed}

pub data Owner : Type 0 where
  nobody : Owner
  maker : (t : ℕ) → Owner
  member : Owner
  taker : (t : ℕ) → Owner

abbrev pub Owners : Type 0
Owners = ℕ → Owner

pub record Ghost : Type 0 where
  pub line : Cells
  pub owner : Owners

abbrev pub Members : Owners → Cells → Type 0
Members o [] = Unit
Members o ((a, v) ∷ xs) = (o a ≡ Owner.member) × Members o xs

abbrev pub values : Cells → List ℕ
values [] = []
values ((a, v) ∷ xs) = v ∷ values xs

-- A node that was taken off.
abbrev pub Gone : Owners → ℕ → Type 0
Gone o a = (w : ℕ) × (o a ≡ Owner.taker w)

-- A node that was pushed.
abbrev pub Settled : Owners → ℕ → Type 0
Settled o a = (o a ≡ Owner.member) ⊎ Gone o a

pub record Shape (g : Ghost) (head : ℕ) (next : ℕ → ℕ) (value : ℕ → Option ℕ) (used : ℕ → Bool)
    (contents : List ℕ) : Type 0 where
  pub chain : Chain next value head g.line
  pub members : Members g.owner g.line
  pub null : g.owner 0 ≡ Owner.nobody
  pub fresh : (a : ℕ) → used a ≡ false → g.owner a ≡ Owner.nobody
  pub has : contents ≡ values g.line

-- The node of the producer's call of `Push`, before it is linked.
abbrev pub Made : ℕ → Owners → (ℕ → Option ℕ) → ℕ → ℕ → Call → Type 0
Made p o value u node c =
    (v : ℕ) × (u ≡ p)
    × (c ≡ Call.pushing v)
    × (o node ≡ Owner.maker u)
    × (value node ≡ some v)
    × (node ≢ 0)

abbrev pub PushAt : ℕ → Owners → ℕ → (ℕ → ℕ) → (ℕ → Option ℕ) → ℕ → Push → Call → Type 0
PushAt p o head next value u (Push.start node v) c =
    (u ≡ p) × (c ≡ Call.pushing v) × (o node ≡ Owner.maker u) × (node ≢ 0)
PushAt p o head next value u (Push.swap expected node) c =
    Made p o value u node c × ((next node ≡ expected) ⊎ Gone o expected)
PushAt p o head next value u (Push.reload expected node) c =
    Made p o value u node c × ((head ≡ expected) ⊎ Gone o expected)
PushAt p o head next value u Push.count c = c ≡ Call.pushed
PushAt p o head next value u Push.pushed c = c ≡ Call.pushed

abbrev pub PopAt : Owners → (ℕ → ℕ) → (ℕ → Option ℕ) → ℕ → Pop → Call → Type 0
PopAt o next value u Pop.load c = c ≡ Call.popping
PopAt o next value u (Pop.test ori) c =
    ((ori ≡ 0) × (c ≡ Call.popped none)) ⊎ ((ori ≢ 0) × (c ≡ Call.popping))
PopAt o next value u (Pop.recheck ori) c = (ori ≢ 0) × (c ≡ Call.popping)
PopAt o next value u (Pop.read ori) c = (ori ≢ 0) × (c ≡ Call.popping) × Settled o ori
PopAt o next value u (Pop.swap ori after) c =
    (ori ≢ 0) × (c ≡ Call.popping) × Settled o ori × (o ori ≡ Owner.member → next ori ≡ after)
PopAt o next value u (Pop.take ori) c =
    (v : ℕ) × (c ≡ Call.popped (some v)) × (o ori ≡ Owner.taker u) × (value ori ≡ some v)
PopAt o next value u (Pop.count ori ret) c = (c ≡ Call.popped ret) × (o ori ≡ Owner.taker u)
PopAt o next value u (Pop.clear ori ret) c = (c ≡ Call.popped ret) × (o ori ≡ Owner.taker u)
PopAt o next value u (Pop.free ori ret) c = (c ≡ Call.popped ret) × (o ori ≡ Owner.taker u)
PopAt o next value u (Pop.popped ret) c = c ≡ Call.popped ret

abbrev pub At : ℕ → Owners → ℕ → (ℕ → ℕ) → (ℕ → Option ℕ) → ℕ → Thread → Call → Type 0
At p o head next value u Thread.idle c = c ≡ Call.idle
At p o head next value u (Thread.pushing pc) c = PushAt p o head next value u pc c
At p o head next value u (Thread.popping pc) c = PopAt o next value u pc c

-- What a step of the thread t leaves to the others; the producer is p.
pub record Later (p t : ℕ) (o : Owners) (head : ℕ) (next : ℕ → ℕ) (value : ℕ → Option ℕ)
    (o' : Owners) (head' : ℕ) (next' : ℕ → ℕ) (value' : ℕ → Option ℕ) : Type 0 where
  pub heads : t ≢ p → (head' ≡ head) ⊎ Gone o' head
  pub settled : (a : ℕ) → Settled o a → Settled o' a
  pub links : (a : ℕ) → o a ≡ Owner.member → next' a ≡ next a
  pub gone : (a : ℕ) → Gone o a → Gone o' a
  pub making :
      (u a : ℕ)
      → u ≢ t
      → o a ≡ Owner.maker u
      → (o' a ≡ Owner.maker u) × (next' a ≡ next a) × (value' a ≡ value a)
  pub taking :
      (u a : ℕ) → u ≢ t → o a ≡ Owner.taker u → (o' a ≡ Owner.taker u) × (value' a ≡ value a)

pub Later-refl :
    (p t : ℕ) (o : Owners) (head : ℕ) (next : ℕ → ℕ) (value : ℕ → Option ℕ)
    → Later p t o head next value o head next value
Later-refl p t o head next value = record {
  heads = λ n. inl refl;
  settled = λ a h. h;
  links = λ a h. refl;
  gone = λ a h. h;
  making = λ u a n h. (h, refl, refl);
  taking = λ u a n h. (h, refl);
}

module _ (p t u : ℕ) (other : u ≢ t) (o o' : Owners) (head head' : ℕ) (next next' : ℕ → ℕ)
    (value value' : ℕ → Option ℕ) (l : Later p t o head next value o' head' next' value')
    (c : Call) where
  Made-later : (node : ℕ) → Made p o value u node c → Made p o' value' u node c
  Made-later node (v, up, e, w, h, n) =
      let (w', z', h') = l.making u node other w in (v, up, e, w', h' ∙ h, n)

  PushAt-later :
      (pc : Push) → PushAt p o head next value u pc c → PushAt p o' head' next' value' u pc c
  PushAt-later (Push.start node v) (up, e, w, n) = (up, e, (l.making u node other w).0, n)
  PushAt-later (Push.swap expected node) ((v, up, e, w, h, n), inl x) =
      (Made-later node (v, up, e, w, h, n), inl ((l.making u node other w).1 ∙ x))
  PushAt-later (Push.swap expected node) (h, inr x) = (Made-later node h, inr (l.gone expected x))
  PushAt-later (Push.reload expected node) ((v, up, e, w, h, n), inl x) = (
    Made-later node (v, up, e, w, h, n),
    elim (l.heads (λ tp. other (up ∙ sym tp))) [
      | inl y ↦ inl (y ∙ x)
      | inr y ↦ inr (subst (Gone o') x y)
    ],
  )
  PushAt-later (Push.reload expected node) (h, inr x) = (Made-later node h, inr (l.gone expected x))
  PushAt-later Push.count h = h
  PushAt-later Push.pushed h = h

  PopAt-later : (pc : Pop) → PopAt o next value u pc c → PopAt o' next' value' u pc c
  PopAt-later Pop.load h = h
  PopAt-later (Pop.test ori) h = h
  PopAt-later (Pop.recheck ori) h = h
  PopAt-later (Pop.read ori) (n, h, x) = (n, h, l.settled ori x)
  PopAt-later (Pop.swap ori after) (n, h, x, e) = (
    n,
    h,
    l.settled ori x,
    λ k. elim x [
      | inl m ↦ l.links ori m ∙ e m
      | inr y ↦ let (w, z) = l.gone ori y in absurd (ground (arith, k, z))
    ],
  )
  PopAt-later (Pop.take ori) (v, e, w, h) =
      let (w', h') = l.taking u ori other w in (v, e, w', h' ∙ h)
  PopAt-later (Pop.count ori ret) (h, w) = (h, (l.taking u ori other w).0)
  PopAt-later (Pop.clear ori ret) (h, w) = (h, (l.taking u ori other w).0)
  PopAt-later (Pop.free ori ret) (h, w) = (h, (l.taking u ori other w).0)
  PopAt-later (Pop.popped ret) h = h

  pub At-later : (th : Thread) → At p o head next value u th c → At p o' head' next' value' u th c
  At-later Thread.idle h = h
  At-later (Thread.pushing pc) h = PushAt-later pc h
  At-later (Thread.popping pc) h = PopAt-later pc h

-- The machine's state stands for the atomic stack's.
pub record Stands (p : ℕ) (m : Machine) (a : Atomic) : Type 0 where
  pub ghost : Ghost
  pub shape : Shape ghost m.stack.head m.stack.next m.stack.value m.used a.contents
  pub delayed : (b : ℕ) → Listed b m.stack.sanitizer.backward_deleting_list → Gone ghost.owner b
  pub each :
      (u : ℕ) → At p ghost.owner m.stack.head m.stack.next m.stack.value u (m.threads u) (a.calls u)

-- After a step of the thread t to th.
pub settle :
    (p : ℕ) (m m' : Machine) (a a' : Atomic) (t : ℕ) (th : Thread) (g' : Ghost)
    → (s : Stands p m a)
    → Later p t s.ghost.owner m.stack.head m.stack.next m.stack.value g'.owner m'.stack.head
        m'.stack.next m'.stack.value
    → m'.threads ≡ assign m.threads t th
    → ((u : ℕ) → u ≢ t → a'.calls u ≡ a.calls u)
    → Shape g' m'.stack.head m'.stack.next m'.stack.value m'.used a'.contents
    → At p g'.owner m'.stack.head m'.stack.next m'.stack.value t th (a'.calls t)
    → ((b : ℕ)
        → Listed b m'.stack.sanitizer.backward_deleting_list
        → Listed b m.stack.sanitizer.backward_deleting_list ⊎ Gone s.ghost.owner b)
    → Stands p m' a'
settle p m m' a a' t th g' s l moves same shape own listed =
    let k = m.stack in
    let k' = m'.stack in
    record {
      ghost = g';
      shape = shape;
      delayed = λ b j. elim (listed b j) [ inl k ↦ l.gone b (s.delayed b k) | inr k ↦ l.gone b k ];
      each = λ u.
          subst (λ f. At p g'.owner k'.head k'.next k'.value u (f u) (a'.calls u)) (sym moves)
            (elim (Bool-cases (t == u)) [
              | inl e ↦
                  let q : t ≡ u = ground (arith, e) in
                  rw e (subst (λ x. At p g'.owner k'.head k'.next k'.value x th (a'.calls x)) q own)
              | inr e ↦
                  let n : u ≢ t = ground (arith, e) in
                  rw (e, same u n)
                    (At-later p t u n s.ghost.owner g'.owner k.head k'.head k.next k'.next k.value
                      k'.value l (a.calls u) (m.threads u) (s.each u))
            ]);
    }
