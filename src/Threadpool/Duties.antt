-- ===== src/Threadpool/Duties.antt =====
-- What the workers and the destructor still have to do once `~ThreadPoolImpl` has begun.
use my_practise.Base.{
  ℕ, zero, suc, ◌+◌, ◌-◌, ◌≤◌, ◌<◌, ◌≡◌, ◌≢◌, ◌⊎◌, inl, inr, refl, ap, List, [], ◌∷◌, ◌++◌, length,
  length-append, arith,
}
use my_practise.Threadpool.{Worker, Ending, Pool, Step, Reach, tally, unstopped, make}

-- The steps that a worker has in front of it once `running` is false.
abbrev pub duty : Worker → ℕ
duty Worker.waiting = 2
duty Worker.testing = 1
duty Worker.fetching = 4
duty (Worker.working task) = 3
duty Worker.stopped = 0

-- The steps that the destructor of that many workers has in front of it, but for the tasks.
abbrev pub ahead : ℕ → Ending → ℕ
ahead l Ending.alive = l + 3
ahead l (Ending.signalling n) = (l - n) + 2
ahead l Ending.draining = 1
ahead l Ending.gone = 0

-- All that is left to do.
unfoldable pub remaining : Pool → ℕ
remaining s = tally duty s.workers + length s.tasks + ahead (length s.workers) s.ending

-- The destructor does not signal more often than there are workers.
abbrev pub Counted : Pool → Type 0
Counted s = (n : ℕ) → s.ending ≡ Ending.signalling n → n ≤ length s.workers

pub length-replace :
    (s : Pool) (ws ws' : List Worker) (w v : Worker)
    → s.workers ≡ ws ++ w ∷ ws'
    → length (ws ++ v ∷ ws') ≡ length s.workers
length-replace s ws ws' w v e =
    ground (arith, ap length e, length-append ws (w ∷ ws'), length-append ws (v ∷ ws'))

replace-Counted :
    (s : Pool) (ws ws' : List Worker) (w v : Worker)
    → s.workers ≡ ws ++ w ∷ ws'
    → Counted s
    → (n : ℕ) → s.ending ≡ Ending.signalling n
    → n ≤ length (ws ++ v ∷ ws')
replace-Counted s ws ws' w v e c n x = ground (arith, c n x, length-replace s ws ws' w v e)

signalling_inj : (n m : ℕ) → Ending.signalling n ≡ Ending.signalling m → n ≡ m
signalling_inj n m e = cc

step-Counted : {s t : Pool} → Step s t → Counted s → Counted t
step-Counted {s} (Step.enqueue task) c = c
step-Counted {s} (Step.signal n e) c = c
step-Counted {s} (Step.wake ws ws' n w e) c =
    replace-Counted s ws ws' Worker.waiting Worker.testing w c
step-Counted {s} (Step.go_on ws ws' w r) c =
    replace-Counted s ws ws' Worker.testing Worker.fetching w c
step-Counted {s} (Step.leave ws ws' w r) c =
    replace-Counted s ws ws' Worker.testing Worker.stopped w c
step-Counted {s} (Step.fetch ws ws' task tasks w e) c =
    replace-Counted s ws ws' Worker.fetching (Worker.working task) w c
step-Counted {s} (Step.finish ws ws' task w) c =
    replace-Counted s ws ws' (Worker.working task) Worker.waiting w c
step-Counted {s} (Step.stop e) c = λ n x. ground (arith, signalling_inj 0 n x)
step-Counted {s} (Step.signal_worker n k e l) c =
    λ m x. ground (arith, l, signalling_inj (suc n) m x)
step-Counted {s} (Step.join n e l a) c = λ m x. absurd (cc)
step-Counted {s} (Step.drain task tasks e q) c = c
step-Counted {s} (Step.clean e q) c = λ m x. absurd (cc)

pub Reach-Counted : (n : ℕ) (s : Pool) → Reach n s → Counted s
unfolding make
Reach-Counted n _ (Reach.created) = λ m x. absurd (cc)
Reach-Counted n _ (Reach.then s t r x) = step-Counted x (Reach-Counted n s r)

-- A step of a worker or of the destructor, which leaves less to do.
pub record Progress (s t : Pool) : Type 0 where
  pub step : Step s t
  pub same_posted : t.posted ≡ s.posted
  pub same_posting : t.posting ≡ s.posting
  pub less : remaining t < remaining s
  pub begun : t.ending ≢ Ending.alive

pub ℕ-cases : (n : ℕ) → (n ≡ 0) ⊎ ((m : ℕ) × (n ≡ suc m))
ℕ-cases zero = inl refl
ℕ-cases (suc n) = inr (n, refl)

pub tasks-cases : (ts : List ℕ) → (ts ≡ []) ⊎ ((t : ℕ) × (us : List ℕ) × (ts ≡ t ∷ us))
tasks-cases [] = inl refl
tasks-cases (t ∷ ts) = inr (t, ts, refl)

-- A worker that has not returned, if there is one.
pub find_unstopped :
    (ws : List Worker)
    → (tally unstopped ws ≡ 0)
      ⊎ ((v : List Worker) × (w : Worker) × (v' : List Worker) × (ws ≡ v ++ w ∷ v')
          × (unstopped w ≡ 1))
unfolding tally
find_unstopped [] = inl refl
find_unstopped (Worker.waiting ∷ ws) = inr ([], Worker.waiting, ws, refl, refl)
find_unstopped (Worker.testing ∷ ws) = inr ([], Worker.testing, ws, refl, refl)
find_unstopped (Worker.fetching ∷ ws) = inr ([], Worker.fetching, ws, refl, refl)
find_unstopped (Worker.working t ∷ ws) = inr ([], Worker.working t, ws, refl, refl)
find_unstopped (Worker.stopped ∷ ws) = elim (find_unstopped ws) [
  | inl h ↦ inl (ground (arith, h))
  | inr (v, w, v', e, h) ↦ inr (Worker.stopped ∷ v, w, v', ap (λ r. Worker.stopped ∷ r) e, h)
]
