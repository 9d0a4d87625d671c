-- ===== src/Lockfree/Calls.antt =====
-- The calls of a lock-free container as its callers see them, for lockfree/Concurrent.hpp, and a container
-- whose operations take effect at once. A thread is a number.
use my_practise.Base.{
  ℕ, ◌≡◌, ◌≢◌, refl, sym, Bool, true, false, Option, List, [], eq→==, ne→==, if◌then◌else◌,
}
use my_practise.Lockfree.Stack.{assign}

-- What a caller sees.
pub data Event : Type 0 where
  push_called : (t v : ℕ) → Event
  push_returned : (t : ℕ) → Event
  pop_called : (t : ℕ) → Event
  pop_returned : (t : ℕ) (ret : Option ℕ) → Event

-- Where a call of the atomic container stands: before its effect or behind it.
pub data Call : Type 0 where
  idle : Call
  pushing : (v : ℕ) → Call
  pushed : Call
  popping : Call
  popped : (ret : Option ℕ) → Call

pub record Atomic : Type 0 where
  pub contents : List ℕ
  pub calls : ℕ → Call

abbrev pub called : Atomic → ℕ → Call → Atomic
called a t c = record a { calls = assign a.calls t c }

unfoldable pub nothing_called : Atomic
nothing_called = record { contents = []; calls = λ t. Call.idle }

pub assign_self {ℓ} : {A : Type ℓ} (f : ℕ → A) (a : ℕ) (v : A) → assign f a v a ≡ v
assign_self f a v = rw (eq→== a a refl)

pub assign-other {ℓ} :
    {A : Type ℓ} (f : ℕ → A) (a : ℕ) (v : A) (b : ℕ) → b ≢ a → assign f a v b ≡ f b
assign-other f a v b n = rw (ne→== a b (λ e. n (sym e)))

pub others : (a : Atomic) (t : ℕ) (c : Call) (u : ℕ) → u ≢ t → assign a.calls t c u ≡ a.calls u
others a t c u n = assign-other a.calls t c u n

-- Both branches of a test.
pub if_both {ℓ κ} :
    {A : Type ℓ} (P : A → Type κ) (b : Bool) (x y : A)
    → (b ≡ true → P x)
    → (b ≡ false → P y)
    → P (if b then x else y)
if_both P true x y p q = p refl
if_both P false x y p q = q refl
