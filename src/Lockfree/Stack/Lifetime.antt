-- ===== src/Lockfree/Stack/Lifetime.antt =====
-- lockfree/Concurrent.hpp: how a node and a `LockFreeListStack` come into being, and the destructor of the
-- stack, which no other thread uses any more.
use my_practise.Base.{
  ℕ, zero, suc, ◌≡◌, refl, sym, ap, ◌∙◌, Bool, Option, none, some, [], ◌∷◌, length, eq→==, subst,
}
use my_practise.Lockfree.Sanitizer
use my_practise.Lockfree.Stack.{Stack, Pop, pop_step, pop_steps}
use my_practise.Lockfree.Stack.Chain.{Cells, Chain}
use my_practise.Lockfree.Stack.Lifo.{pop_lifo}

-- `ConcurrentNodeT`: `data_ptr_`, and `next_`.
pub record Node : Type 0 where
  pub data_ptr : Option ℕ
  pub next_ptr : ℕ

-- The constructor from a value.
unfoldable pub make_node : ℕ → ℕ → Node
make_node value next = record { data_ptr = some value; next_ptr = next }

unfoldable pub modify_next : ℕ → Node → Node
modify_next next n = record n { next_ptr = next }

-- The constructor of the stack; the memory is as it is found.
unfoldable pub make_stack : ℕ → Bool → (ℕ → ℕ) → (ℕ → Option ℕ) → Stack
make_stack thread_max open_sanitizer nexts values = record {
  head = 0;
  size = 0;
  next = nexts;
  value = values;
  sanitizer = Sanitizer.make thread_max open_sanitizer;
}

-- What `Pop` returned: whether the loop goes on.
unfoldable pub popped_value : Pop → Option (Option ℕ)
popped_value (Pop.popped ret) = some ret
popped_value _ = none

-- `while (Pop());` on fuel: none is no end within it, or no return from `Pop` within nine steps.
unfoldable pub destroy_stack : Option ℕ → ℕ → Stack → Option Stack
unfolding popped_value pop_steps
destroy_stack hp zero s = none
destroy_stack hp (suc fuel) s =
    let r = pop_steps hp 9 Pop.load s in
    elim (popped_value r.0) [
      | none ↦ none
      | some none ↦ some r.1
      | some (some v) ↦ destroy_stack hp fuel r.1
    ]

destroy_stack-value :
    (hp : Option ℕ) (fuel v : ℕ) (s : Stack)
    → (pop_steps hp 9 Pop.load s).0 ≡ Pop.popped (some v)
    → destroy_stack hp (suc fuel) s ≡ destroy_stack hp fuel (pop_steps hp 9 Pop.load s).1
unfolding destroy_stack popped_value
destroy_stack-value hp fuel v s e = rw (destroy_stack, e) refl

pop_steps-empty :
    (hp : Option ℕ) (s : Stack) → s.head ≡ 0 → pop_steps hp 9 Pop.load s ≡ (Pop.popped none, s)
unfolding pop_steps pop_step
pop_steps-empty hp s e = rw (eq→== s.head 0 e) refl

destroy_stack-empty :
    (hp : Option ℕ) (fuel : ℕ) (s : Stack) → s.head ≡ 0 → destroy_stack hp (suc fuel) s ≡ some s
unfolding destroy_stack popped_value
destroy_stack-empty hp fuel s e =
    rw (destroy_stack, pop_steps-empty hp s e) (ap (λ r. some r.1) (pop_steps-empty hp s e))

-- On a stack whose nodes are distinct and hold values the destructor's loop ends, within one round
-- for each node and one more, and leaves no node.
pub destroy_stack-all :
    (hp : Option ℕ) (s : Stack) (xs : Cells)
    → Chain s.next s.value s.head xs
    → (s' : Stack) × (destroy_stack hp (suc (length xs)) s ≡ some s') × (s'.head ≡ 0)
destroy_stack-all hp s [] c = (s, destroy_stack-empty hp 0 s c, c)
destroy_stack-all hp s ((a, v) ∷ xs) c =
    let top : Chain s.next s.value s.head ((s.head, v) ∷ xs) =
      subst (λ b. Chain s.next s.value s.head ((b, v) ∷ xs)) (sym c.0) c in
    let (returns, chain, count, freed) = pop_lifo hp v s xs top in
    let (s', run, null) = destroy_stack-all hp (pop_steps hp 9 Pop.load s).1 xs chain in
    (s', destroy_stack-value hp (suc (length xs)) v s returns ∙ run, null)

make_stack-Chain :
    (thread_max : ℕ) (open_sanitizer : Bool) (nexts : ℕ → ℕ) (values : ℕ → Option ℕ)
    → let s = make_stack thread_max open_sanitizer nexts values in Chain s.next s.value s.head []
unfolding make_stack
make_stack-Chain thread_max open_sanitizer nexts values = refl
