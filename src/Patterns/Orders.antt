-- ===== src/Patterns/Orders.antt =====
-- What sequences of logins and nests of decorators do.
use my_practise.Base.{
  ℕ, ◌≡◌, refl, sym, ◌∙◌, Bool, false, ◌||◌, List, [], ◌∷◌, ◌++◌, if◌then◌else◌, append_assoc,
  append-nil, arith,
}
use my_practise.Patterns.{
  Proxy, Printed, make_proxy, same_text, admin, login, proxy_execute, Decorator, call,
  decorator_execute,
}

-- Logins one after the other, with their passwords.
unfoldable pub logins : List (List ℕ × List ℕ) → Proxy → Proxy
logins [] p = p
logins ((name, word) ∷ rest) p = logins rest (login name word p).1

-- Whether one of the names is the administrator's.
abbrev pub any_admin : List (List ℕ × List ℕ) → Bool
any_admin [] = false
any_admin ((name, word) ∷ rest) = same_text name admin || any_admin rest

abbrev pub last_user : List (List ℕ × List ℕ) → List ℕ → List ℕ
last_user [] u = u
last_user ((name, word) ∷ rest) u = last_user rest name

logins-admin :
    (ls : List (List ℕ × List ℕ)) (p : Proxy)
    → (logins ls p).is_admin ≡ (p.is_admin || any_admin ls)
unfolding logins login
logins-admin [] p = ground arith
logins-admin ((name, word) ∷ rest) p = logins-admin rest (login name word p).1 ∙ ground arith

logins-user : (ls : List (List ℕ × List ℕ)) (p : Proxy) → (logins ls p).user ≡ last_user ls p.user
unfolding logins login
logins-user [] p = refl
logins-user ((name, word) ∷ rest) p = logins-user rest (login name word p).1

-- After any logins the proxy lets a call through to its target exactly if one of them, not only
-- the last, gave the administrator's name; else it names the last user.
pub proxy_execute-logins :
    (ls : List (List ℕ × List ℕ))
    → proxy_execute (logins ls make_proxy)
      ≡ (if any_admin ls then Printed.target_executes else Printed.no_privilege (last_user ls []))
unfolding proxy_execute make_proxy
proxy_execute-logins ls =
    rw
      (
        logins-admin ls (record { user = []; is_admin = false }),
        logins-user ls (record { user = []; is_admin = false }),
      )
      refl

module _ {Act : Type 0} where
  -- Decorators around a target, the outermost first.
  unfoldable pub nest : List (Decorator Act) → List Act → List Act
  nest [] target = target
  nest (d ∷ ds) target = decorator_execute d (nest ds target)

  abbrev pub pre_calls : List (Decorator Act) → List Act
  pre_calls [] = []
  pre_calls (d ∷ ds) = call d.pre_call ++ pre_calls ds

  -- The innermost first.
  abbrev pub post_calls : List (Decorator Act) → List Act
  post_calls [] = []
  post_calls (d ∷ ds) = post_calls ds ++ call d.post_call

  -- Nested decorators call their callbacks before the target from the outermost in, and those
  -- behind it from the innermost out.
  pub nest-calls :
      (ds : List (Decorator Act)) (target : List Act)
      → nest ds target ≡ pre_calls ds ++ (target ++ post_calls ds)
  unfolding nest decorator_execute
  nest-calls [] target = sym (append-nil target)
  nest-calls (d ∷ ds) target = rw (nest-calls ds target) (simp append_assoc refl)
