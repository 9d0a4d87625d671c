-- ===== src/Threadpool/Tests.antt =====
-- The theorems on the pool at concrete runs.
use my_practise.Base.{◌≡◌, ◌≢◌, refl, true, false, [], ◌∷◌, ◌++◌}
use my_practise.Threadpool.{tally, unstopped, Worker, Ending, Pool, Step, Reach, make}
use my_practise.Threadpool.Promises.{tasks_in_order, fetch_nonempty}
use my_practise.Threadpool.Duties.{Progress}
use my_practise.Threadpool.Destroyed.{Finished, destructor_goes_on, destroyed_complete}

-- One worker; two tasks are posted, and it has passed the test of `running`.
abbrev claimed : Pool
claimed = record {
  tasks = 5 ∷ 6 ∷ [];
  task_sem = 1;
  running = true;
  workers = Worker.fetching ∷ [];
  ending = Ending.alive;
  posting = 0;
  posted = 5 ∷ 6 ∷ [];
  ran = [];
}

claimed-Reach : Reach 1 claimed
unfolding make
claimed-Reach =
    Reach.then _ _
      (Reach.then _ _
        (Reach.then _ _
          (Reach.then _ _
            (Reach.then _ _ (Reach.then _ _ (Reach.created) (Step.enqueue 5)) (Step.enqueue 6))
            (Step.signal 1 refl))
          (Step.signal 0 refl))
        (Step.wake [] [] 1 refl refl))
      (Step.go_on [] [] refl refl)

-- The worker ran the first task, and the destructor has signalled.
abbrev ending : Pool
ending = record claimed {
  tasks = 6 ∷ [];
  task_sem = 2;
  running = false;
  workers = Worker.waiting ∷ [];
  ending = Ending.signalling 1;
  ran = 5 ∷ [];
}

ending-Reach : Reach 1 ending
ending-Reach =
    Reach.then _ _
      (Reach.then _ _
        (Reach.then _ _ (Reach.then _ _ claimed-Reach (Step.fetch [] [] 5 (6 ∷ []) refl refl))
          (Step.finish [] [] 5 refl))
        (Step.stop refl))
      (Step.signal_worker 0 0 refl refl)

tasks_in_order_example : ending.posted ≡ ending.ran ++ ending.tasks
tasks_in_order_example = tasks_in_order 1 ending ending-Reach

fetch_nonempty_example : claimed.tasks ≢ []
fetch_nonempty_example = fetch_nonempty 1 claimed [] [] claimed-Reach refl

destructor_goes_on_example : ((t : Pool) × Progress ending t) × ((u : Pool) × Finished ending u)
destructor_goes_on_example = destructor_goes_on 1 ending ending-Reach (λ e. cc) (λ e. cc)

-- The worker has left, and the task that it did not take was run.
abbrev drained : Pool
drained = record ending {
  tasks = [];
  task_sem = 1;
  workers = Worker.stopped ∷ [];
  ending = Ending.draining;
  ran = 5 ∷ 6 ∷ [];
}

drained-Reach : Reach 1 drained
unfolding tally
drained-Reach =
    Reach.then _ _
      (Reach.then _ _
        (Reach.then _ _ (Reach.then _ _ ending-Reach (Step.wake [] [] 1 refl refl))
          (Step.leave [] [] refl refl))
        (Step.join 1 refl refl refl))
      (Step.drain 6 [] refl refl)

destroyed_complete_example :
    (tally unstopped (Worker.stopped ∷ []) ≡ 0)
    × (drained.tasks ≡ [])
    × (drained.ran ≡ drained.posted)
destroyed_complete_example =
    destroyed_complete 1 drained (record drained { ending = Ending.gone }) drained-Reach
      (Step.clean refl refl) (λ e. cc) refl
