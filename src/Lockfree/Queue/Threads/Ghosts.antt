-- ===== src/Lockfree/Queue/Threads/Ghosts.antt =====
-- The nodes of the queue in the order in which they were linked, which the code does not keep, and
-- what they mean for a thread at each place.
use my_practise.Base.{
  ℕ, zero, suc, ◌-◌, ◌≤◌, ◌<◌, ◌≡◌, ◌≢◌, refl, sym, ◌∙◌, subst, Bool, true, false, Option, none,
  some, List, [], ◌∷◌, ◌⊎◌, inl, inr, ◌==◌, Bool-cases, arith,
}
use my_practise.Lockfree.Stack.{assign}
use my_practise.Lockfree.Calls.{Call, Atomic}
use my_practise.Lockfree.Queue.{QueuePush, QueuePop}
use my_practise.Lockfree.Queue.Threads.{Thread, Machine}

-- A node is in the making by a thread, or its value is being taken by one.
pub data Owner : Type 0 where
  nobody : Owner
  maker : (t : ℕ) → Owner
  taker : (t : ℕ) → Owner

-- The nodes by position, from the first dummy on; `place` is the position of a node.
pub record Ghost : Type 0 where
  pub node_at : ℕ → ℕ
  pub value_at : ℕ → ℕ
  pub place : ℕ → ℕ
  pub head_at : ℕ
  pub tail_at : ℕ
  pub last : ℕ
  pub owner : ℕ → Owner

-- The n values from position i on.
unfoldable pub slice : (ℕ → ℕ) → ℕ → ℕ → List ℕ
slice f i zero = []
slice f i (suc n) = f i ∷ slice f (suc i) n

pub record Shape (g : Ghost) (head tail : ℕ) (next : ℕ → ℕ) (value : ℕ → Option ℕ) (used : ℕ → Bool)
    (contents : List ℕ) : Type 0 where
  pub linked : (i : ℕ) → i < g.last → next (g.node_at i) ≡ g.node_at (suc i)
  pub ended : next (g.node_at g.last) ≡ 0
  pub nonzero : (i : ℕ) → i ≤ g.last → g.node_at i ≢ 0
  pub placed : (i : ℕ) → i ≤ g.last → g.place (g.node_at i) ≡ i
  pub head_is : head ≡ g.node_at g.head_at
  pub tail_is : tail ≡ g.node_at g.tail_at
  pub head_tail : g.head_at ≤ g.tail_at
  pub tail_last : g.tail_at ≤ g.last
  pub holds : (i : ℕ) → g.head_at < i → i ≤ g.last → value (g.node_at i) ≡ some (g.value_at i)
  pub is_used : (i : ℕ) → i ≤ g.last → used (g.node_at i) ≡ true
  pub unclaimed : (i : ℕ) → g.head_at < i → i ≤ g.last → g.owner (g.node_at i) ≡ Owner.nobody
  pub unmade : (i u : ℕ) → i ≤ g.last → g.owner (g.node_at i) ≢ Owner.maker u
  pub fresh : (a : ℕ) → used a ≡ false → g.owner a ≡ Owner.nobody
  pub has : contents ≡ slice g.value_at (suc g.head_at) (g.last - g.head_at)

-- The node of a thread's call of `Push`, before it is linked.
abbrev pub Made : Ghost → (ℕ → ℕ) → (ℕ → Option ℕ) → ℕ → ℕ → Call → Type 0
Made g next value u node c =
    (v : ℕ) × (c ≡ Call.pushing v)
    × (g.owner node ≡ Owner.maker u)
    × (value node ≡ some v)
    × (next node ≡ 0)
    × (node ≢ 0)

abbrev pub Linked : Ghost → ℕ → Type 0
Linked g a = (i : ℕ) × (i ≤ g.last) × (g.node_at i ≡ a)

abbrev pub Link : Ghost → ℕ → ℕ → Type 0
Link g a b = (i : ℕ) × (i < g.last) × (g.node_at i ≡ a) × (g.node_at (suc i) ≡ b)

abbrev pub PushAt : Ghost → (ℕ → ℕ) → (ℕ → Option ℕ) → ℕ → QueuePush → Call → Type 0
PushAt g next value u (QueuePush.start node v) c =
    (c ≡ Call.pushing v) × (g.owner node ≡ Owner.maker u) × (node ≢ 0)
PushAt g next value u (QueuePush.load_tail node) c = Made g next value u node c
PushAt g next value u (QueuePush.protect pre node) c = Made g next value u node c
PushAt g next value u (QueuePush.recheck pre node) c = Made g next value u node c
PushAt g next value u (QueuePush.read_next ori node) c = Made g next value u node c × Linked g ori
PushAt g next value u (QueuePush.help ori after node) c =
    Made g next value u node c × Link g ori after
PushAt g next value u (QueuePush.append ori node) c = Made g next value u node c × Linked g ori
PushAt g next value u (QueuePush.swing ori node) c = (c ≡ Call.pushed) × Link g ori node
PushAt g next value u QueuePush.count c = c ≡ Call.pushed
PushAt g next value u QueuePush.pushed c = c ≡ Call.pushed

-- A head that was read, with its successor, and the tail behind it.
abbrev pub Ahead : Ghost → ℕ → ℕ → Type 0
Ahead g a b = (i : ℕ) × (i < g.tail_at) × (g.node_at i ≡ a) × (g.node_at (suc i) ≡ b)

abbrev pub PopAt : Ghost → (ℕ → Option ℕ) → ℕ → QueuePop → Call → Type 0
PopAt g value u QueuePop.load_head c = c ≡ Call.popping
PopAt g value u (QueuePop.load_tail head) c =
    (c ≡ Call.popping) × (i : ℕ) × (i ≤ g.head_at) × (g.node_at i ≡ head)
PopAt g value u (QueuePop.load_next head tail) c =
    (c ≡ Call.popping)
    × (i : ℕ) × (i ≤ g.head_at)
    × (g.node_at i ≡ head)
    × (j : ℕ) × (i ≤ j)
    × (j ≤ g.tail_at)
    × (g.node_at j ≡ tail)
PopAt g value u (QueuePop.decide head tail next) c =
    ((c ≡ Call.popped none) × (head ≡ tail) × (next ≡ 0))
    ⊎ ((c ≡ Call.popping)
        × (next ≢ 0)
        × ((head ≡ tail) × Link g head next ⊎ (head ≢ tail) × Ahead g head next))
PopAt g value u (QueuePop.help tail next) c = (c ≡ Call.popping) × Link g tail next
PopAt g value u (QueuePop.protect head next) c = (c ≡ Call.popping) × Ahead g head next
PopAt g value u (QueuePop.protect_next head next) c = (c ≡ Call.popping) × Ahead g head next
PopAt g value u (QueuePop.swap head next) c = (c ≡ Call.popping) × Ahead g head next
PopAt g value u (QueuePop.take head next) c =
    (v : ℕ) × (c ≡ Call.popped (some v)) × (g.owner next ≡ Owner.taker u) × (value next ≡ some v)
PopAt g value u (QueuePop.count head ret) c = c ≡ Call.popped ret
PopAt g value u (QueuePop.clear head ret) c = c ≡ Call.popped ret
PopAt g value u (QueuePop.free head ret) c = c ≡ Call.popped ret
PopAt g value u (QueuePop.popped ret) c = c ≡ Call.popped ret

abbrev pub At : Ghost → (ℕ → ℕ) → (ℕ → Option ℕ) → ℕ → Thread → Call → Type 0
At g next value u Thread.idle c = c ≡ Call.idle
At g next value u (Thread.pushing pc) c = PushAt g next value u pc c
At g next value u (Thread.popping pc) c = PopAt g value u pc c

-- What a step of the thread t leaves to the others.
pub record Later (t : ℕ) (g : Ghost) (next : ℕ → ℕ) (value : ℕ → Option ℕ) (g' : Ghost)
    (next' : ℕ → ℕ) (value' : ℕ → Option ℕ) : Type 0 where
  pub longer : g.last ≤ g'.last
  pub head_on : g.head_at ≤ g'.head_at
  pub tail_on : g.tail_at ≤ g'.tail_at
  pub nodes : (i : ℕ) → i ≤ g.last → g'.node_at i ≡ g.node_at i
  pub making :
      (u a : ℕ)
      → u ≢ t
      → g.owner a ≡ Owner.maker u
      → (g'.owner a ≡ Owner.maker u) × (next' a ≡ next a) × (value' a ≡ value a)
  pub taking :
      (u a : ℕ)
      → u ≢ t
      → g.owner a ≡ Owner.taker u
      → (g'.owner a ≡ Owner.taker u) × (value' a ≡ value a)

pub Later-refl :
    (t : ℕ) (g : Ghost) (next : ℕ → ℕ) (value : ℕ → Option ℕ) → Later t g next value g next value
Later-refl t g next value = record {
  longer = omega arith;
  head_on = omega arith;
  tail_on = omega arith;
  nodes = λ i h. refl;
  making = λ u a n h. (h, refl, refl);
  taking = λ u a n h. (h, refl);
}

module _ (t u : ℕ) (other : u ≢ t) (g g' : Ghost) (next next' : ℕ → ℕ) (value value' : ℕ → Option ℕ)
    (tail_last : g.tail_at ≤ g.last) (l : Later t g next value g' next' value') (c : Call) where
  Made-later : (node : ℕ) → Made g next value u node c → Made g' next' value' u node c
  Made-later node (v, e, o, h, z, n) =
      let (o', z', h') = l.making u node other o in (v, e, o', h' ∙ h, z' ∙ z, n)

  Linked-later : (a : ℕ) → Linked g a → Linked g' a
  Linked-later a (i, h, e) = let p = l.longer in (i, omega arith, l.nodes i h ∙ e)

  Link-later : (a b : ℕ) → Link g a b → Link g' a b
  Link-later a b (i, h, e, f) =
      let p = l.longer in
      (i, omega arith, l.nodes i (omega arith) ∙ e, l.nodes (suc i) (omega arith) ∙ f)

  Ahead-later : (a b : ℕ) → Ahead g a b → Ahead g' a b
  Ahead-later a b (i, h, e, f) =
      let p = l.tail_on in
      (i, omega arith, l.nodes i (omega arith) ∙ e, l.nodes (suc i) (omega arith) ∙ f)

  PushAt-later : (pc : QueuePush) → PushAt g next value u pc c → PushAt g' next' value' u pc c
  PushAt-later (QueuePush.start node v) (e, o, n) = (e, (l.making u node other o).0, n)
  PushAt-later (QueuePush.load_tail node) h = Made-later node h
  PushAt-later (QueuePush.protect pre node) h = Made-later node h
  PushAt-later (QueuePush.recheck pre node) h = Made-later node h
  PushAt-later (QueuePush.read_next ori node) (h, k) = (Made-later node h, Linked-later ori k)
  PushAt-later (QueuePush.help ori after node) (h, k) = (Made-later node h, Link-later ori after k)
  PushAt-later (QueuePush.append ori node) (h, k) = (Made-later node h, Linked-later ori k)
  PushAt-later (QueuePush.swing ori node) (h, k) = (h, Link-later ori node k)
  PushAt-later QueuePush.count h = h
  PushAt-later QueuePush.pushed h = h

  PopAt-later :
      g.head_at ≤ g.tail_at → (pc : QueuePop) → PopAt g value u pc c → PopAt g' value' u pc c
  PopAt-later le QueuePop.load_head h = h
  PopAt-later le (QueuePop.load_tail head) (h, i, k, e) =
      let p = l.head_on in (h, i, omega arith, l.nodes i (omega arith) ∙ e)
  PopAt-later le (QueuePop.load_next head tail) (h, i, k, e, j, p, q, f) =
      let x = l.head_on in
      let y = l.tail_on in
      (
        h,
        i,
        omega arith,
        l.nodes i (omega arith) ∙ e,
        j,
        p,
        omega arith,
        l.nodes j (omega arith) ∙ f,
      )
  PopAt-later le (QueuePop.decide head tail next) (inl h) = inl h
  PopAt-later le (QueuePop.decide head tail next) (inr (h, n, inl (e, k))) =
      inr (h, n, inl (e, Link-later head next k))
  PopAt-later le (QueuePop.decide head tail next) (inr (h, n, inr (e, k))) =
      inr (h, n, inr (e, Ahead-later head next k))
  PopAt-later le (QueuePop.help tail next) (h, k) = (h, Link-later tail next k)
  PopAt-later le (QueuePop.protect head next) (h, k) = (h, Ahead-later head next k)
  PopAt-later le (QueuePop.protect_next head next) (h, k) = (h, Ahead-later head next k)
  PopAt-later le (QueuePop.swap head next) (h, k) = (h, Ahead-later head next k)
  PopAt-later le (QueuePop.take head next) (v, e, o, h) =
      let (o', h') = l.taking u next other o in (v, e, o', h' ∙ h)
  PopAt-later le (QueuePop.count head ret) h = h
  PopAt-later le (QueuePop.clear head ret) h = h
  PopAt-later le (QueuePop.free head ret) h = h
  PopAt-later le (QueuePop.popped ret) h = h

  At-later :
      g.head_at ≤ g.tail_at → (th : Thread) → At g next value u th c → At g' next' value' u th c
  At-later le Thread.idle h = h
  At-later le (Thread.pushing pc) h = PushAt-later pc h
  At-later le (Thread.popping pc) h = PopAt-later le pc h

-- The machine's state stands for the atomic queue's.
pub record Stands (m : Machine) (a : Atomic) : Type 0 where
  pub ghost : Ghost
  pub shape : Shape ghost m.queue.head m.queue.tail m.queue.next m.queue.value m.used a.contents
  pub each : (u : ℕ) → At ghost m.queue.next m.queue.value u (m.threads u) (a.calls u)

-- After a step of the thread t to th.
pub settle :
    (m m' : Machine) (a a' : Atomic) (t : ℕ) (th : Thread) (g' : Ghost)
    → (s : Stands m a) → Later t s.ghost m.queue.next m.queue.value g' m'.queue.next m'.queue.value
    → m'.threads ≡ assign m.threads t th
    → ((u : ℕ) → u ≢ t → a'.calls u ≡ a.calls u)
    → Shape g' m'.queue.head m'.queue.tail m'.queue.next m'.queue.value m'.used a'.contents
    → At g' m'.queue.next m'.queue.value t th (a'.calls t)
    → Stands m' a'
settle m m' a a' t th g' s l moves same shape own = record {
  ghost = g';
  shape = shape;
  each = λ u.
      subst (λ f. At g' m'.queue.next m'.queue.value u (f u) (a'.calls u)) (sym moves)
        (elim (Bool-cases (t == u)) [
          | inl e ↦
              let p : t ≡ u = ground (arith, e) in
              rw e (subst (λ x. At g' m'.queue.next m'.queue.value x th (a'.calls x)) p own)
          | inr e ↦
              let n : u ≢ t = ground (arith, e) in
              rw (e, same u n)
                (At-later t u n s.ghost g' m.queue.next m'.queue.next m.queue.value m'.queue.value
                  s.shape.tail_last l (a.calls u) s.shape.head_tail (m.threads u) (s.each u))
        ]);
}
