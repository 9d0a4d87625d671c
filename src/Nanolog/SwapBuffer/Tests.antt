-- ===== src/Nanolog/SwapBuffer/Tests.antt =====
-- The theorems on `SwapBuffer` at concrete inputs.
use my_practise.Base.{ℕ, ◌<◌, ◌≤◌, ◌≡◌, ◌⊎◌, refl, List, [], ◌∷◌, Option, none, arith, Memory}
use my_practise.Nanolog.SwapBuffer.{
  SwapBuffer, Block, Outcome, load_buffer_from, make, aio_flush, default_buffer_capacity_limit,
}
use my_practise.Nanolog.SwapBuffer.Flush.{Op, run, Blank, run-loads_nothing}

abbrev mallocs : ℕ → Memory
mallocs _ _ = 0

abbrev no_service : List Block → Option ℕ
no_service _ = none

run-loads_nothing_example :
    let s = (aio_flush no_service make).1 in
    let n : ℕ = 3 in
    ((0 < n)
      × (n < default_buffer_capacity_limit)
      × (load_buffer_from mallocs (1 ∷ 2 ∷ 3 ∷ []) n s ≡ Outcome.undefined))
    ⊎ (((n ≡ 0) ⊎ (default_buffer_capacity_limit ≤ n))
        × ((t : SwapBuffer ℕ) × (load_buffer_from mallocs (1 ∷ 2 ∷ 3 ∷ []) n s
              ≡ Outcome.returns (0, t))
            × Blank t))
unfolding run load_buffer_from make
run-loads_nothing_example =
    run-loads_nothing (Op.load mallocs [] 0 ∷ Op.flush no_service ∷ [])
      (aio_flush no_service make).1 mallocs (1 ∷ 2 ∷ 3 ∷ []) 3 refl (omega arith)
