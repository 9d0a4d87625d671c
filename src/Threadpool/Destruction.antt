-- ===== src/Threadpool/Destruction.antt =====
-- While `~ThreadPoolImpl` runs, a worker or the destructor can always take a step.
use my_practise.Base.{
  ℕ, suc, ◌+◌, ◌-◌, ◌≤◌, ◌<◌, ◌≡◌, ◌≢◌, inl, inr, refl, false, ap, ◌∙◌, List, ◌∷◌, ◌++◌, length,
  arith,
}
use my_practise.Threadpool.{Worker, Ending, Pool, Step, Reach, tally, unstopped}
use my_practise.Threadpool.Tokens.{
  is_waiting, is_testing, is_fetching, is_stopped, tally-append, tally-replace, Phase,
}
use my_practise.Threadpool.Promises.{apart, reach-Phase}
use my_practise.Threadpool.Duties.{
  duty, ahead, remaining, Reach-Counted, length-replace, Progress, ℕ-cases, tasks-cases,
  find_unstopped,
}

-- The step that puts one worker in the place of another.
worker_less :
    (s : Pool) (ws ws' : List Worker) (w v : Worker)
    → s.workers ≡ ws ++ w ∷ ws'
    → (tally duty (ws ++ v ∷ ws') + duty w ≡ tally duty s.workers + duty v)
      × (length (ws ++ v ∷ ws') ≡ length s.workers)
worker_less s ws ws' w v e = (tally-replace duty s ws ws' w v e, length-replace s ws ws' w v e)

ahead_length : (l l' : ℕ) (e : Ending) → l' ≡ l → ahead l' e ≡ ahead l e
ahead_length l l' e h = ap (λ k. ahead k e) h

module _ (s : Pool) (m : ℕ) (x : s.ending ≡ Ending.signalling m) where
  not_alive : s.ending ≢ Ending.alive
  not_alive e = cc

  moved :
      (ws ws' : List Worker) (w v : Worker) (n : ℕ)
      → s.workers ≡ ws ++ w ∷ ws'
      → Step s (record s { task_sem = n; workers = ws ++ v ∷ ws' })
      → duty v < duty w
      → (t : Pool) × Progress s t
  unfolding remaining
  moved ws ws' w v n e st d =
      let c = worker_less s ws ws' w v e in
      (
        _,
        record {
          step = st;
          same_posted = refl;
          same_posting = refl;
          less = omega (arith, c.0, d, ahead_length (length s.workers) _ s.ending c.1);
          begun = not_alive;
        },
      )

  fetched :
      (ws ws' : List Worker) (task : ℕ) (tasks : List ℕ)
      → s.workers ≡ ws ++ Worker.fetching ∷ ws'
      → s.tasks ≡ task ∷ tasks
      → (t : Pool) × Progress s t
  unfolding remaining
  fetched ws ws' task tasks e q =
      let c = worker_less s ws ws' Worker.fetching (Worker.working task) e in
      (
        _,
        record {
          step = Step.fetch ws ws' task tasks e q;
          same_posted = refl;
          same_posting = refl;
          less = omega (arith, c.0, ap length q, ahead_length (length s.workers) _ s.ending c.1);
          begun = not_alive;
        },
      )

  signalled : (k : ℕ) → length s.workers ≡ m + suc k → (t : Pool) × Progress s t
  unfolding remaining
  signalled k l = (
    _,
    record {
      step = Step.signal_worker m k x l;
      same_posted = refl;
      same_posting = refl;
      less = ground (arith, l, ap (ahead (length s.workers)) x);
      begun = λ e. absurd (cc);
    },
  )

  joined : length s.workers ≡ m → tally unstopped s.workers ≡ 0 → (t : Pool) × Progress s t
  unfolding remaining
  joined l a = (
    _,
    record {
      step = Step.join m x l a;
      same_posted = refl;
      same_posting = refl;
      less = ground (arith, ap (ahead (length s.workers)) x);
      begun = λ e. absurd (cc);
    },
  )

  -- Every worker has its token: one that has not returned goes on.
  worker_on :
      (ws ws' : List Worker) (w : Worker)
      → s.running ≡ false
      → tally is_fetching s.workers ≤ length s.tasks
      → length s.workers ≤ s.task_sem + tally is_stopped s.workers + tally is_testing s.workers
      → s.workers ≡ ws ++ w ∷ ws'
      → unstopped w ≡ 1
      → (t : Pool) × Progress s t
  worker_on ws ws' Worker.waiting r f k e u =
      let one = ap (tally is_waiting) e ∙ tally-append is_waiting ws Worker.waiting ws' in
      elim (ℕ-cases s.task_sem) [
        | inl z ↦ ground (arith, z, k, one, apart s.workers)
        | inr (n, z) ↦
            moved ws ws' Worker.waiting Worker.testing n e (Step.wake ws ws' n e z) (omega arith)
      ]
  worker_on ws ws' Worker.testing r f k e u =
      moved ws ws' Worker.testing Worker.stopped s.task_sem e (Step.leave ws ws' e r) (omega arith)
  worker_on ws ws' Worker.fetching r f k e u =
      let one = ap (tally is_fetching) e ∙ tally-append is_fetching ws Worker.fetching ws' in
      elim (tasks-cases s.tasks) [
        | inl z ↦ ground (arith, ap length z, one, f)
        | inr (task, tasks, q) ↦ fetched ws ws' task tasks e q
      ]
  worker_on ws ws' (Worker.working task) r f k e u =
      moved ws ws' (Worker.working task) Worker.waiting s.task_sem e (Step.finish ws ws' task e)
        (omega arith)
  worker_on ws ws' Worker.stopped r f k e u = ground (arith, u)

  signalling_on :
      s.running ≡ false
      → tally is_fetching s.workers ≤ length s.tasks
      → m ≤ s.task_sem + tally is_stopped s.workers + tally is_testing s.workers
      → m ≤ length s.workers
      → (t : Pool) × Progress s t
  signalling_on r f k c = elim (ℕ-cases (length s.workers - m)) [
    | inr (j, z) ↦ signalled j (omega (arith, z, c))
    | inl z ↦
        let l : length s.workers ≡ m = omega (arith, z, c) in
        elim (find_unstopped s.workers) [
          | inl a ↦ joined l a
          | inr (ws, w, ws', e, u) ↦ worker_on ws ws' w r f (omega (arith, k, l)) e u
        ]
  ]

draining_on : (s : Pool) → s.ending ≡ Ending.draining → (t : Pool) × Progress s t
unfolding remaining
draining_on s x = elim (tasks-cases s.tasks) [
  | inl z ↦ (
    _,
    record {
      step = Step.clean x z;
      same_posted = refl;
      same_posting = refl;
      less = ground (arith, ap (ahead (length s.workers)) x);
      begun = λ e. absurd (cc);
    },
  )
  | inr (task, tasks, q) ↦ (
    _,
    record {
      step = Step.drain task tasks x q;
      same_posted = refl;
      same_posting = refl;
      less = ground (arith, ap length q);
      begun = λ e. absurd (cc);
    },
  )
]

-- In every state of a destructor that has begun and is not over there is such a step.
pub next_step :
    (n : ℕ) (s : Pool)
    → Reach n s
    → s.ending ≢ Ending.alive
    → s.ending ≢ Ending.gone
    → (t : Pool) × Progress s t
next_step n s r begun over = elim (reach-Phase n s r) [
  | Phase.alive e q h ↦ absurd (begun e)
  | Phase.signalling m e q h k ↦ signalling_on s m e q h k (Reach-Counted n s r m e)
  | Phase.ended (inl e) h ↦ draining_on s e
  | Phase.ended (inr e) h ↦ absurd (over e)
]
