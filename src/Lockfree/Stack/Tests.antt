-- ===== src/Lockfree/Stack/Tests.antt =====
-- The theorems on the stack at concrete inputs.
use my_practise.Base.{
  ℕ, ◌+◌, ◌-◌, ◌%◌, ◌^◌, ◌≡◌, refl, false, Option, none, some, [], ◌∷◌, ◌==◌, if◌then◌else◌, arith,
}
use my_practise.Lockfree.Sanitizer
use my_practise.Lockfree.Sanitizer.{Sanitizer, no_hazard}
use my_practise.Lockfree.Stack.{Stack, Pop, assign, pop_steps}
use my_practise.Lockfree.Stack.Chain.{Cells, Chain}
use my_practise.Lockfree.Stack.Lifo.{pop_lifo}
use my_practise.Lockfree.Stack.Lifetime.{destroy_stack, destroy_stack-all}

abbrev two_next : ℕ → ℕ
two_next a = if a == 10 then 20 else 0

abbrev two_value : ℕ → Option ℕ
two_value a = if a == 10 then some 5 else if a == 20 then some 6 else none

abbrev two_nodes : Stack
two_nodes = record {
  head = 10;
  size = 2;
  next = two_next;
  value = two_value;
  sanitizer = Sanitizer.make 2 false;
}

abbrev two_cells : Cells
two_cells = (10, 5) ∷ (20, 6) ∷ []

two_nodes-Chain : Chain two_next two_value 10 two_cells
two_nodes-Chain = (refl, omega arith, refl, (omega arith, tt), (refl, omega arith, refl, tt, refl))

pop_lifo_example :
    let r = pop_steps (some 0) 9 Pop.load two_nodes in
    (r.0 ≡ Pop.popped (some 5))
    × Chain r.1.next r.1.value r.1.head ((20, 6) ∷ [])
    × (r.1.size ≡ (two_nodes.size + 2 ^ 64 - 1) % 2 ^ 64)
    × (r.1.sanitizer
        ≡ (Sanitizer.release two_nodes.head
            (Sanitizer.reset
              (some 0)
              (Sanitizer.access (some 0) two_nodes.head two_nodes.sanitizer).1).1).1)
pop_lifo_example = pop_lifo (some 0) 5 two_nodes ((20, 6) ∷ []) two_nodes-Chain

-- The other threads take node 10 off and put it back.
abbrev taken : Stack
taken = record two_nodes { head = 20 }

abbrev put_back : Stack
put_back = record two_nodes { next = assign two_next 30 20 }

put_back-Chain : Chain put_back.next two_value 10 two_cells
put_back-Chain = (refl, omega arith, refl, (omega arith, tt), (refl, omega arith, refl, tt, refl))

destroy_stack-all_example :
    (s' : Stack) × (destroy_stack (some 0) 3 two_nodes ≡ some s') × (s'.head ≡ 0)
destroy_stack-all_example = destroy_stack-all (some 0) two_nodes two_cells two_nodes-Chain
