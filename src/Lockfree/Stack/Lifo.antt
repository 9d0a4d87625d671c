-- ===== src/Lockfree/Stack/Lifo.antt =====
-- A call of `Push` or `Pop` that no other thread disturbs does what the list of the nodes says.
use my_practise.Base.{
  ℕ, ◌+◌, ◌-◌, ◌%◌, ◌^◌, ◌≡◌, ◌≢◌, refl, sym, subst, ◌∙◌, ap, Option, none, some, [], ◌∷◌,
  if◌then◌else◌, eq→==, ne→==,
}
use my_practise.Lockfree.Sanitizer
use my_practise.Lockfree.Stack.{
  Stack, Push, Pop, assign, push_step, pop_step, push_steps, pop_steps,
}
use my_practise.Lockfree.Stack.Chain.{Cells, Apart, Chain, Chain-assign, Chain-clear}

push_run :
    (node v : ℕ) (s : Stack)
    → push_steps 3 (Push.start node v) s ≡ (
      Push.pushed,
      record s {
        head = node;
        size = (s.size + 1) % 2 ^ 64;
        next = assign s.next node s.head;
        value = assign s.value node (some v);
      },
    )
unfolding push_steps push_step
push_run node v s = rw (eq→== s.head s.head refl)

step_run :
    {pc' : Pop} {s' : Stack} {r : Pop × Stack} (hp : Option ℕ) (n : ℕ) (pc : Pop) (s : Stack)
    → pop_step hp pc s ≡ (pc', s')
    → pop_steps hp n pc' s' ≡ r
    → pop_steps hp (ℕ.suc n) pc s ≡ r
unfolding pop_steps
step_run hp n pc s h k = ap (λ q. pop_steps hp n q.0 q.1) h ∙ k

pop_run :
    (hp : Option ℕ) (s : Stack)
    → s.head ≢ 0
    → pop_steps hp 9 Pop.load s ≡ (
      Pop.popped (s.value s.head),
      record s {
        head = s.next s.head;
        size = (s.size + 2 ^ 64 - 1) % 2 ^ 64;
        value = assign s.value s.head none;
        sanitizer =
            (Sanitizer.release s.head
              (Sanitizer.reset hp (Sanitizer.access hp s.head s.sanitizer).1).1).1;
      },
    )
unfolding pop_steps pop_step
pop_run hp s h =
    let s1 : Stack = record s { sanitizer = (Sanitizer.access hp s.head s.sanitizer).1 } in
    let checked : pop_step hp (Pop.test s.head) s ≡ (Pop.recheck s.head, s1) =
      ap (λ t. if t then (Pop.popped none, s) else (Pop.recheck s.head, s1)) (ne→== s.head 0 h) in
    let rechecked : pop_step hp (Pop.recheck s.head) s1 ≡ (Pop.read s.head, s1) =
      ap (λ t. if t then (Pop.read s.head, s1) else (Pop.test s.head, s1))
        (eq→== s.head s.head refl) in
    let s2 : Stack = record s1 { head = s.next s.head } in
    let swapped : pop_step hp (Pop.swap s.head (s.next s.head)) s1 ≡ (Pop.take s.head, s2) =
      ap (λ t. if t then (Pop.take s.head, s2) else (Pop.test s.head, s1))
        (eq→== s.head s.head refl) in
    step_run hp 7 (Pop.test s.head) s checked (
      step_run hp 6 (Pop.recheck s.head) s1 rechecked
        (step_run hp 4 (Pop.swap s.head (s.next s.head)) s1 swapped refl))

-- An undisturbed push of a new node puts its value in front, in three steps, and counts it.
pub push_lifo :
    (node v : ℕ) (s : Stack) (xs : Cells)
    → node ≢ 0
    → Apart node xs
    → Chain s.next s.value s.head xs
    → let r = push_steps 3 (Push.start node v) s in
      (r.0 ≡ Push.pushed)
      × Chain r.1.next r.1.value r.1.head ((node, v) ∷ xs)
      × (r.1.size ≡ (s.size + 1) % 2 ^ 64)
push_lifo node v s xs h new c =
    let chain : Chain (assign s.next node s.head) (assign s.value node (some v)) node
        ((node, v) ∷ xs) =
      (
        refl,
        h,
        rw (eq→== node node refl),
        new,
        rw (eq→== node node refl)
            (Chain-assign s.next s.value node s.head (some v) s.head xs new c),
      ) in
    subst
      (λ r.
        (r.0 ≡ Push.pushed)
        × Chain r.1.next r.1.value r.1.head ((node, v) ∷ xs)
        × (r.1.size ≡ (s.size + 1) % 2 ^ 64))
      (sym (push_run node v s)) (refl, chain, refl)

-- An undisturbed pop returns the value in front, in nine steps, and leaves the rest and its count;
-- the thread's hazards are cleared before the node goes to the sanitizer.
pub pop_lifo :
    (hp : Option ℕ) (v : ℕ) (s : Stack) (xs : Cells)
    → Chain s.next s.value s.head ((s.head, v) ∷ xs)
    → let r = pop_steps hp 9 Pop.load s in
      (r.0 ≡ Pop.popped (some v))
      × Chain r.1.next r.1.value r.1.head xs
      × (r.1.size ≡ (s.size + 2 ^ 64 - 1) % 2 ^ 64)
      × (r.1.sanitizer
          ≡ (Sanitizer.release s.head
              (Sanitizer.reset hp (Sanitizer.access hp s.head s.sanitizer).1).1).1)
pop_lifo hp v s xs c =
    subst
      (λ r.
        (r.0 ≡ Pop.popped (some v))
        × Chain r.1.next r.1.value r.1.head xs
        × (r.1.size ≡ (s.size + 2 ^ 64 - 1) % 2 ^ 64)
        × (r.1.sanitizer
            ≡ (Sanitizer.release s.head
                (Sanitizer.reset hp (Sanitizer.access hp s.head s.sanitizer).1).1).1))
      (sym (pop_run hp s c.1))
      (ap Pop.popped c.2, Chain-clear s.next s.value s.head (s.next s.head) xs c.3 c.4, refl, refl)

-- An undisturbed pop of an empty stack returns null in two steps and changes nothing.
pub pop_empty :
    (hp : Option ℕ) (s : Stack)
    → Chain s.next s.value s.head []
    → pop_steps hp 2 Pop.load s ≡ (Pop.popped none, s)
unfolding pop_steps pop_step
pop_empty hp s c = rw (eq→== s.head 0 c)
