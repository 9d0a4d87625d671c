-- ===== src/Threadpool/Instance/Once.antt =====
-- The calls make one pool and agree on it.
use my_practise.Base.{
  ℕ, suc, ◌≡◌, ◌≢◌, refl, sym, ap, ◌∙◌, subst, Option, none, some, ◌==◌, Bool-cases, ◌⊎◌, inl, inr,
  arith,
}
use my_practise.Threadpool.Instance.{
  Caller, Singleton, CallStep, Calls, move, no_instance, first_test_null, first_test_set, lock,
  second_test_null, second_test_set, create, unlock, copy, none_called, call,
}

-- What holds of the thread t at a place, for the holder of the mutex and the number of pools.
abbrev Fits : Option ℕ → ℕ → ℕ → Caller → Type 0
Fits h c t Caller.outside = Unit
Fits h c t Caller.locking = Unit
Fits h c t Caller.testing = h ≡ some t
Fits h c t Caller.creating = (h ≡ some t) × (c ≡ 0)
Fits h c t Caller.unlocking = (h ≡ some t) × (c ≡ 1)
Fits h c t Caller.returning = c ≡ 1
Fits h c t (Caller.returned p) = (c ≡ 1) × (p ≡ 0)

-- No pool yet, or the pool 0.
abbrev Made : Singleton → Type 0
Made s = ((s.created ≡ 0) × (s.instance_ptr ≡ none)) ⊎ ((s.created ≡ 1) × (s.instance_ptr ≡ some 0))

record Sound (s : Singleton) : Type 0 where
  made : Made s
  fits : (t : ℕ) → Fits s.holder s.created t (s.callers t)

moved :
    (h : Option ℕ) (c t : ℕ) (x : Caller) (callers : ℕ → Caller)
    → Fits h c t x
    → ((u : ℕ) → u ≢ t → Fits h c u (callers u))
    → (u : ℕ) → Fits h c u (move t x callers u)
moved h c t x callers f g u = elim (Bool-cases (u == t)) [
  | inl e ↦ let q : u ≡ t = ground (arith, e) in rw (e, q) f
  | inr e ↦ rw e (g u (ground (arith, e)))
]

some-ne : (t u : ℕ) → u ≢ t → some t ≢ some u
some-ne t u h e = ground (arith, h, e)

Fits-lock : (c t u : ℕ) (x : Caller) → Fits none c u x → Fits (some t) c u x
Fits-lock c t u Caller.outside f = f
Fits-lock c t u Caller.locking f = f
Fits-lock c t u Caller.testing f = cc
Fits-lock c t u Caller.creating (f, g) = cc
Fits-lock c t u Caller.unlocking (f, g) = cc
Fits-lock c t u Caller.returning f = f
Fits-lock c t u (Caller.returned p) f = f

Fits-unlock : (c t u : ℕ) (x : Caller) → u ≢ t → Fits (some t) c u x → Fits none c u x
Fits-unlock c t u Caller.outside n f = f
Fits-unlock c t u Caller.locking n f = f
Fits-unlock c t u Caller.testing n f = ground (arith, some-ne t u n f)
Fits-unlock c t u Caller.creating n (f, g) = ground (arith, some-ne t u n f)
Fits-unlock c t u Caller.unlocking n (f, g) = ground (arith, some-ne t u n f)
Fits-unlock c t u Caller.returning n f = f
Fits-unlock c t u (Caller.returned p) n f = f

Fits-create : (t u : ℕ) (x : Caller) → u ≢ t → Fits (some t) 0 u x → Fits (some t) 1 u x
Fits-create t u Caller.outside n f = f
Fits-create t u Caller.locking n f = f
Fits-create t u Caller.testing n f = f
Fits-create t u Caller.creating n (f, g) = ground (arith, some-ne t u n f)
Fits-create t u Caller.unlocking n (f, g) = ground (arith, some-ne t u n f)
Fits-create t u Caller.returning n f = omega arith
Fits-create t u (Caller.returned p) n (f, g) = omega arith

-- With an instance there is one pool, and it is the pool 0.
Made-some : (s : Singleton) (p : ℕ) → Made s → s.instance_ptr ≡ some p → (s.created ≡ 1) × (p ≡ 0)
Made-some s p (inl (c, e)) h = cc
Made-some s p (inr (c, e)) h = (c, ground (arith, e, h))

Made-none : (s : Singleton) → Made s → s.instance_ptr ≡ none → s.created ≡ 0
Made-none s (inl (c, e)) h = c
Made-none s (inr (c, e)) h = cc

at : (s : Singleton) (t : ℕ) (x : Caller) → Sound s → s.callers t ≡ x → Fits s.holder s.created t x
at s t x i e = subst (Fits s.holder s.created t) e (i.fits t)

one_instance : (s : Singleton) (p : ℕ) → Made s → s.created ≡ 1 → p ≡ 0 → s.instance_ptr ≡ some p
one_instance s p (inl (c, e)) h z = ground (arith, c, h)
one_instance s p (inr (c, e)) h z = e ∙ ap some (sym z)

step-Sound : (s : Singleton) (t : ℕ) (s' : Singleton) → Sound s → CallStep s t s' → Sound s'
step-Sound s t s' i (first_test_null e n) = record {
  made = i.made;
  fits = moved s.holder s.created t Caller.locking s.callers tt (λ u h. i.fits u);
}
step-Sound s t s' i (first_test_set p e n) = record {
  made = i.made;
  fits =
      moved s.holder s.created t Caller.returning s.callers (Made-some s p i.made n).0
        (λ u h. i.fits u);
}
step-Sound s t s' i (lock e n) = record {
  made = i.made;
  fits = moved (some t) s.created t Caller.testing s.callers refl (λ u h.
      Fits-lock s.created t u (s.callers u)
        (subst (λ x. Fits x s.created u (s.callers u)) n (i.fits u)));
}
step-Sound s t s' i (second_test_null e n) = record {
  made = i.made;
  fits =
      moved s.holder s.created t Caller.creating s.callers
        (at s t Caller.testing i e, Made-none s i.made n) (λ u h. i.fits u);
}
step-Sound s t s' i (second_test_set p e n) = record {
  made = i.made;
  fits =
      moved s.holder s.created t Caller.unlocking s.callers
        (at s t Caller.testing i e, (Made-some s p i.made n).0) (λ u h. i.fits u);
}
step-Sound s t s' i (create e) =
    let (held, zero_made) = at s t Caller.creating i e in
    record {
      made = inr (ap suc zero_made, ap some zero_made);
      fits =
          moved s.holder (suc s.created) t Caller.unlocking s.callers (held, ap suc zero_made)
            (λ u h.
              subst (λ c. Fits s.holder (suc c) u (s.callers u)) (sym zero_made)
                (subst (λ x. Fits x 1 u (s.callers u)) (sym held)
                  (Fits-create t u (s.callers u) h (
                    subst (λ x. Fits x 0 u (s.callers u)) held
                      (subst (λ c. Fits s.holder c u (s.callers u)) zero_made (i.fits u))))));
    }
step-Sound s t s' i (unlock e) =
    let (held, one_made) = at s t Caller.unlocking i e in
    record {
      made = i.made;
      fits = moved none s.created t Caller.returning s.callers one_made (λ u h.
          Fits-unlock s.created t u (s.callers u) h
            (subst (λ x. Fits x s.created u (s.callers u)) held (i.fits u)));
    }
step-Sound s t s' i (copy p e n) = record {
  made = i.made;
  fits =
      moved s.holder s.created t (Caller.returned p) s.callers (Made-some s p i.made n)
        (λ u h. i.fits u);
}

calls-Sound : {s : Singleton} → Calls s → Sound s
unfolding no_instance
calls-Sound none_called = record { made = inl (refl, refl); fits = λ t. tt }
calls-Sound (call {s} {s'} t r st) = step-Sound s t s' (calls-Sound r) st

-- However the threads' calls interleave, when two calls have returned, one pool was made, and both
-- gave that one.
pub one_pool :
    (s : Singleton) (t u p q : ℕ)
    → Calls s
    → s.callers t ≡ Caller.returned p
    → s.callers u ≡ Caller.returned q
    → (s.created ≡ 1) × (s.instance_ptr ≡ some p) × (p ≡ q)
one_pool s t u p q r e f =
    let i = calls-Sound r in
    let (made, zero_p) = at s t (Caller.returned p) i e in
    let (made', zero_q) = at s u (Caller.returned q) i f in
    (made, one_instance s p i.made made zero_p, zero_p ∙ sym zero_q)
