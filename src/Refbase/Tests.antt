-- ===== src/Refbase/Tests.antt =====
-- The theorems on reference counting at concrete inputs.
use my_practise.Base.{ℕ, ◌≡◌, refl, inl, [], ◌∷◌, ◌==◌, if◌then◌else◌, arith}
use my_practise.Refbase.{Memory, Op, run}
use my_practise.Refbase.Counting.{holders}
use my_practise.Refbase.Effects.{times}
use my_practise.Refbase.Lifetime.{Sound, LastGone}
use my_practise.Refbase.Ownership.{run-Sound, run-LastGone}

-- Object 8 has the holders 0 and 2, object 9 the holder 1; object 7 is deleted.
abbrev counts : ℕ → ℕ
counts a = if a == 8 then 2 else if a == 9 then 1 else 0

abbrev shared : Memory
shared = record { sptrs = 8 ∷ 9 ∷ 8 ∷ []; refcount = counts; deleted = 7 ∷ [] }

shared-Sound8 : Sound 8 shared
unfolding holders times
shared-Sound8 = (refl, inl refl)

shared-Sound9 : Sound 9 shared
unfolding holders times
shared-Sound9 = (refl, inl refl)

run-Sound_example : Sound 9 (run (Op.set_move 1 0) shared)
run-Sound_example =
    run-Sound 9 (Op.set_move 1 0) shared (omega arith, omega arith) (omega arith) shared-Sound9

run-LastGone_example : LastGone 9 shared (run (Op.set_move 1 0) shared)
run-LastGone_example =
    run-LastGone 9 (Op.set_move 1 0) shared (omega arith, omega arith) (omega arith) shared-Sound9

-- The last holder of object 9 goes, and it is deleted.
deleted9 : times 9 (run (Op.set_move 1 0) shared).deleted ≡ 1
unfolding run times
deleted9 = refl
