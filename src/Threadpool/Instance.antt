-- ===== src/Threadpool/Instance.antt =====
-- threadpool/ThreadPool.cpp, `ThreadPoolImpl::GetInstance`: the test of the instance, and again under the
-- mutex, by any number of threads. A thread is a number, and so is a pool. The accesses to `instance_` are
-- taken in some order, though the first of them is not under the mutex.
pub mod Once
mod Tests
use my_practise.Base.{
  ℕ, zero, suc, ◌+◌, ◌≤◌, ◌<◌, ◌≡◌, ◌≢◌, refl, sym, ap, ◌∙◌, subst, Bool, true, false, Option, none,
  some, ◌==◌, if◌then◌else◌, Bool-cases, ◌⊎◌, inl, inr, arith,
}

-- Where a thread stands in `GetInstance`.
pub data Caller : Type 0 where
  outside : Caller
  locking : Caller  -- behind the first test, at the lock
  testing : Caller  -- under the lock, before the second test
  creating : Caller  -- behind it
  unlocking : Caller
  returning : Caller  -- before the copy of `instance_`
  returned : (pool : ℕ) → Caller

-- `created` counts the calls of the constructor; `holder` holds the mutex.
pub record Singleton : Type 0 where
  pub instance_ptr : Option ℕ
  pub created : ℕ
  pub holder : Option ℕ
  pub callers : ℕ → Caller

-- A thread moves.
abbrev pub move : ℕ → Caller → (ℕ → Caller) → ℕ → Caller
move t c callers u = if u == t then c else callers u

unfoldable pub no_instance : Singleton
no_instance = record {
  instance_ptr = none;
  created = 0;
  holder = none;
  callers = λ t. Caller.outside;
}

-- One access of the thread t.
pub data CallStep (s : Singleton) (t : ℕ) : Singleton → Type 0 where
  first_test_null :
      s.callers t ≡ Caller.outside
      → s.instance_ptr ≡ none
      → CallStep s t (record s { callers = move t Caller.locking s.callers })
  first_test_set :
      (p : ℕ)
      → s.callers t ≡ Caller.outside
      → s.instance_ptr ≡ some p
      → CallStep s t (record s { callers = move t Caller.returning s.callers })
  lock :
      s.callers t ≡ Caller.locking
      → s.holder ≡ none
      → CallStep s t (record s { holder = some t; callers = move t Caller.testing s.callers })
  second_test_null :
      s.callers t ≡ Caller.testing
      → s.instance_ptr ≡ none
      → CallStep s t (record s { callers = move t Caller.creating s.callers })
  second_test_set :
      (p : ℕ)
      → s.callers t ≡ Caller.testing
      → s.instance_ptr ≡ some p
      → CallStep s t (record s { callers = move t Caller.unlocking s.callers })
  create :
      s.callers t ≡ Caller.creating
      → CallStep s t (record s {
        instance_ptr = some s.created;
        created = suc s.created;
        callers = move t Caller.unlocking s.callers;
      })
  unlock :
      s.callers t ≡ Caller.unlocking
      → CallStep s t (record s { holder = none; callers = move t Caller.returning s.callers })
  copy :
      (p : ℕ)
      → s.callers t ≡ Caller.returning
      → s.instance_ptr ≡ some p
      → CallStep s t (record s { callers = move t (Caller.returned p) s.callers })

pub data Calls : Singleton → Type 0 where
  none_called : Calls no_instance
  call : {s s' : Singleton} (t : ℕ) → Calls s → CallStep s t s' → Calls s'
