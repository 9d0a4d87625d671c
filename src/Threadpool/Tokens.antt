-- ===== src/Threadpool/Tokens.antt =====
-- What the semaphore counts: one token for each task that no worker has claimed while the pool runs,
-- and one for each worker that has to leave when it ends.
use my_practise.Base.{ℕ, ◌+◌, ◌≤◌, ◌≡◌, ◌⊎◌, ap, true, false, List, [], ◌∷◌, ◌++◌, length, arith}
use my_practise.Threadpool.{Worker, Ending, Pool, tally, unstopped}

abbrev pub is_waiting : Worker → ℕ
is_waiting Worker.waiting = 1
is_waiting _ = 0

abbrev pub is_testing : Worker → ℕ
is_testing Worker.testing = 1
is_testing _ = 0

abbrev pub is_fetching : Worker → ℕ
is_fetching Worker.fetching = 1
is_fetching _ = 0

abbrev pub is_stopped : Worker → ℕ
is_stopped Worker.stopped = 1
is_stopped _ = 0

pub tally-append :
    (f : Worker → ℕ) (ws : List Worker) (w : Worker) (ws' : List Worker)
    → tally f (ws ++ w ∷ ws') ≡ tally f ws + (f w + tally f ws')
unfolding tally
tally-append f [] w ws' = ground arith
tally-append f (v ∷ ws) w ws' = ground (arith, tally-append f ws w ws')

-- Replacing one worker changes a tally by what the two count.
pub tally-replace :
    (f : Worker → ℕ) (s : Pool) (ws ws' : List Worker) (w v : Worker)
    → s.workers ≡ ws ++ w ∷ ws'
    → tally f (ws ++ v ∷ ws') + f w ≡ tally f s.workers + f v
tally-replace f s ws ws' w v e =
    ground (arith, ap (tally f) e, tally-append f ws w ws', tally-append f ws v ws')

-- The three times of a pool.
pub data Phase (s : Pool) : Type 0 where
  alive :
      s.ending ≡ Ending.alive
      → s.running ≡ true
      → s.task_sem + s.posting + tally is_testing s.workers + tally is_fetching s.workers
        ≡ length s.tasks
      → Phase s
  signalling :
      (n : ℕ)
      → s.ending ≡ Ending.signalling n
      → s.running ≡ false
      → tally is_fetching s.workers ≤ length s.tasks
      → n ≤ s.task_sem + tally is_stopped s.workers + tally is_testing s.workers
      → Phase s
  ended :
      (s.ending ≡ Ending.draining) ⊎ (s.ending ≡ Ending.gone)
      → tally unstopped s.workers ≡ 0
      → Phase s

-- Behind the end no worker is anywhere but at its end.
pub none_left :
    (s : Pool) (ws ws' : List Worker) (w : Worker)
    → tally unstopped s.workers ≡ 0
    → s.workers ≡ ws ++ w ∷ ws'
    → unstopped w ≡ 0
none_left s ws ws' w h e =
    ground (arith, h, ap (tally unstopped) e, tally-append unstopped ws w ws')
