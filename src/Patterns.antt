-- ===== src/Patterns.antt =====
-- design_pattern/: the proxy, the decorator and the observer. What a call prints or calls is a
-- list of actions.
pub mod Orders
mod Tests
use my_practise.Base.{
  ℕ, Bool, true, false, ◌&&◌, ◌||◌, List, [], ◌∷◌, ◌++◌, Option, none, some, ◌==◌, if◌then◌else◌,
}

-- Proxy/Proxy.hpp; a user's name is the list of its bytes.
pub record Proxy : Type 0 where
  pub user : List ℕ
  pub is_admin : Bool

unfoldable pub make_proxy : Proxy
make_proxy = record { user = []; is_admin = false }

abbrev pub same_text : List ℕ → List ℕ → Bool
same_text [] [] = true
same_text (x ∷ xs) (y ∷ ys) = x == y && same_text xs ys
same_text _ _ = false

-- "cshr"
abbrev pub admin : List ℕ
admin = 99 ∷ 115 ∷ 104 ∷ 114 ∷ []

-- `login`: the password is not looked at.
unfoldable pub login : List ℕ → List ℕ → Proxy → Bool × Proxy
login username password p = (
  true,
  record { user = username; is_admin = if same_text username admin then true else p.is_admin },
)

pub data Printed : Type 0 where
  target_executes : Printed
  no_privilege : List ℕ → Printed

-- `Proxy::execute`
unfoldable pub proxy_execute : Proxy → Printed
proxy_execute p = if p.is_admin then target_executes else no_privilege p.user

-- Decorator/Decorator.hpp; a callback is the list of what it does.
pub record Decorator (Act : Type 0) : Type 0 where
  pub pre_call : Option (List Act)
  pub post_call : Option (List Act)

module _ {Act : Type 0} where
  unfoldable pub make_decorator : Decorator Act
  make_decorator = record { pre_call = none; post_call = none }

  unfoldable pub bind_pre_call : List Act → Decorator Act → Decorator Act
  bind_pre_call cb d = record d { pre_call = some cb }

  unfoldable pub bind_post_call : List Act → Decorator Act → Decorator Act
  bind_post_call cb d = record d { post_call = some cb }

  -- A bound callback, called.
  abbrev pub call : Option (List Act) → List Act
  call none = []
  call (some acts) = acts

  -- `Decorator::execute` around what the target does.
  unfoldable pub decorator_execute : Decorator Act → List Act → List Act
  decorator_execute d target = call d.pre_call ++ (target ++ call d.post_call)

-- Observer/Observer.hpp; a weak pointer names an object, which the program may have destroyed.
pub record Observer : Type 0 where
  pub target : Option ℕ

-- The objects: none is a destroyed one.
abbrev pub Objects : Type 0 → Type 0
Objects Target = ℕ → Option Target

unfoldable pub bind_target : ℕ → Observer → Observer
bind_target p o = record { target = some p }

module _ {Target : Type 0} where
  -- `m_target.lock()`
  abbrev pub lock : Objects Target → Observer → Option Target
  lock objects o = elim o.target [ none ↦ none | some p ↦ objects p ]

  unfoldable pub is_alive : Objects Target → Observer → Bool
  is_alive objects o = elim (lock objects o) [ none ↦ false | some t ↦ true ]

  -- `addListenerOnSuccess`, and the other two, which differ in the function of the target that they
  -- call: what it returns, and the objects behind the call.
  unfoldable pub add_listener :
      (Target → Bool × Target) → Objects Target → Observer → Bool × Objects Target
  add_listener add objects o = elim o.target [
    | none ↦ (false, objects)
    | some p ↦ elim (objects p) [
      | none ↦ (false, objects)
      | some t ↦ ((add t).0, λ q. if q == p then some (add t).1 else objects q)
    ]
  ]
