-- ===== src/Threadpool/Instance/Tests.antt =====
-- A thread that calls alone.
use my_practise.Base.{ℕ, ◌≡◌, refl, none, some}
use my_practise.Threadpool.Instance.{
  Caller, Singleton, Calls, move, no_instance, first_test_null, lock, second_test_null, create,
  unlock, copy, none_called, call,
}
use my_practise.Threadpool.Instance.Once.{one_pool}

abbrev pool : ℕ
pool = 0

abbrev step1 : Singleton
step1 = record {
  instance_ptr = none;
  created = 0;
  holder = none;
  callers = move 7 Caller.locking (λ t. Caller.outside);
}

abbrev step2 : Singleton
step2 = record step1 { holder = some 7; callers = move 7 Caller.testing step1.callers }

abbrev step3 : Singleton
step3 = record step2 { callers = move 7 Caller.creating step2.callers }

abbrev step4 : Singleton
step4 = record step3 {
  instance_ptr = some 0;
  created = 1;
  callers = move 7 Caller.unlocking step3.callers;
}

abbrev step5 : Singleton
step5 = record step4 { holder = none; callers = move 7 Caller.returning step4.callers }

abbrev step6 : Singleton
step6 = record step5 { callers = move 7 (Caller.returned 0) step5.callers }

step6-Calls : Calls step6
unfolding no_instance
step6-Calls =
    call 7
      (call 7
        (call 7
          (call 7 (call 7 (call 7 none_called (first_test_null refl refl)) (lock refl refl))
            (second_test_null refl refl))
          (create refl))
        (unlock refl))
      (copy 0 refl refl)

one_pool_example : (step6.created ≡ 1) × (step6.instance_ptr ≡ some pool) × (pool ≡ pool)
one_pool_example = one_pool step6 7 7 pool pool step6-Calls refl refl
