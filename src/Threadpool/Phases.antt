-- ===== src/Threadpool/Phases.antt =====
-- Every step of the pool keeps it in its phase or moves it to the next.
use my_practise.Base.{
  ℕ, zero, suc, ◌+◌, ◌≡◌, inl, inr, refl, ap, true, false, List, [], ◌∷◌, ◌++◌, length,
  length-append, arith,
}
use my_practise.Threadpool.{Worker, Ending, Pool, Step, tally, make, all_waiting}
use my_practise.Threadpool.Tokens.{
  is_testing, is_fetching, is_stopped, tally-replace, Phase, none_left,
}

tally-waiting : (f : Worker → ℕ) (n : ℕ) → f Worker.waiting ≡ 0 → tally f (all_waiting n) ≡ 0
unfolding tally
tally-waiting f zero h = refl
tally-waiting f (suc n) h = ground (arith, h, tally-waiting f n h)

pub make-Phase : (n : ℕ) → Phase (make n)
unfolding make
make-Phase n =
    Phase.alive refl refl
      (ground (arith, tally-waiting is_testing n refl, tally-waiting is_fetching n refl))

enqueue-Phase :
    (s : Pool) (task : ℕ)
    → Phase s
    → Phase (record s {
      tasks = s.tasks ++ task ∷ [];
      posted = s.posted ++ task ∷ [];
      posting = s.posting + 1;
    })
enqueue-Phase s task (Phase.alive e r h) =
    Phase.alive e r (ground (arith, h, length-append s.tasks (task ∷ [])))
enqueue-Phase s task (Phase.signalling n e r h k) =
    Phase.signalling n e r (ground (arith, h, length-append s.tasks (task ∷ []))) k
enqueue-Phase s task (Phase.ended e h) = Phase.ended e h

wake-Phase :
    (s : Pool) (ws ws' : List Worker) (n : ℕ)
    → s.workers ≡ ws ++ Worker.waiting ∷ ws'
    → s.task_sem ≡ suc n
    → Phase s
    → Phase (record s { task_sem = n; workers = ws ++ Worker.testing ∷ ws' })
wake-Phase s ws ws' n w t p =
    let test = tally-replace is_testing s ws ws' Worker.waiting Worker.testing w in
    let fetch = tally-replace is_fetching s ws ws' Worker.waiting Worker.testing w in
    let stop = tally-replace is_stopped s ws ws' Worker.waiting Worker.testing w in
    elim p [
      | Phase.alive e r h ↦ Phase.alive e r (ground (arith, h, t, test, fetch))
      | Phase.signalling m e r h k ↦
          Phase.signalling m e r (ground (arith, h, fetch)) (ground (arith, k, t, test, stop))
      | Phase.ended e h ↦ ground (arith, none_left s ws ws' Worker.waiting h w)
    ]

go_on-Phase :
    (s : Pool) (ws ws' : List Worker)
    → s.workers ≡ ws ++ Worker.testing ∷ ws'
    → s.running ≡ true
    → Phase s
    → Phase (record s { workers = ws ++ Worker.fetching ∷ ws' })
go_on-Phase s ws ws' w t p =
    let test = tally-replace is_testing s ws ws' Worker.testing Worker.fetching w in
    let fetch = tally-replace is_fetching s ws ws' Worker.testing Worker.fetching w in
    elim p [
      | Phase.alive e r h ↦ Phase.alive e r (ground (arith, h, test, fetch))
      | Phase.signalling m e r h k ↦ cc
      | Phase.ended e h ↦ ground (arith, none_left s ws ws' Worker.testing h w)
    ]

leave-Phase :
    (s : Pool) (ws ws' : List Worker)
    → s.workers ≡ ws ++ Worker.testing ∷ ws'
    → s.running ≡ false
    → Phase s
    → Phase (record s { workers = ws ++ Worker.stopped ∷ ws' })
leave-Phase s ws ws' w t p =
    let test = tally-replace is_testing s ws ws' Worker.testing Worker.stopped w in
    let fetch = tally-replace is_fetching s ws ws' Worker.testing Worker.stopped w in
    let stop = tally-replace is_stopped s ws ws' Worker.testing Worker.stopped w in
    elim p [
      | Phase.alive e r h ↦ cc
      | Phase.signalling m e r h k ↦
          Phase.signalling m e r (ground (arith, h, fetch)) (ground (arith, k, test, stop))
      | Phase.ended e h ↦ ground (arith, none_left s ws ws' Worker.testing h w)
    ]

fetch-Phase :
    (s : Pool) (ws ws' : List Worker) (task : ℕ) (tasks : List ℕ)
    → s.workers ≡ ws ++ Worker.fetching ∷ ws'
    → s.tasks ≡ task ∷ tasks
    → Phase s
    → Phase (record s {
      tasks = tasks;
      workers = ws ++ Worker.working task ∷ ws';
      ran = s.ran ++ task ∷ [];
    })
fetch-Phase s ws ws' task tasks w t p =
    let test = tally-replace is_testing s ws ws' Worker.fetching (Worker.working task) w in
    let fetch = tally-replace is_fetching s ws ws' Worker.fetching (Worker.working task) w in
    let stop = tally-replace is_stopped s ws ws' Worker.fetching (Worker.working task) w in
    let len = ap length t in
    elim p [
      | Phase.alive e r h ↦ Phase.alive e r (ground (arith, h, len, test, fetch))
      | Phase.signalling m e r h k ↦
          Phase.signalling m e r (ground (arith, h, len, fetch)) (ground (arith, k, test, stop))
      | Phase.ended e h ↦ ground (arith, none_left s ws ws' Worker.fetching h w)
    ]

finish-Phase :
    (s : Pool) (ws ws' : List Worker) (task : ℕ)
    → s.workers ≡ ws ++ Worker.working task ∷ ws'
    → Phase s
    → Phase (record s { workers = ws ++ Worker.waiting ∷ ws' })
finish-Phase s ws ws' task w p =
    let test = tally-replace is_testing s ws ws' (Worker.working task) Worker.waiting w in
    let fetch = tally-replace is_fetching s ws ws' (Worker.working task) Worker.waiting w in
    let stop = tally-replace is_stopped s ws ws' (Worker.working task) Worker.waiting w in
    elim p [
      | Phase.alive e r h ↦ Phase.alive e r (ground (arith, h, test, fetch))
      | Phase.signalling m e r h k ↦
          Phase.signalling m e r (ground (arith, h, fetch)) (ground (arith, k, test, stop))
      | Phase.ended e h ↦ ground (arith, none_left s ws ws' (Worker.working task) h w)
    ]

stop-Phase :
    (s : Pool)
    → s.ending ≡ Ending.alive
    → Phase s
    → Phase (record s { running = false; ending = Ending.signalling 0 })
stop-Phase s x (Phase.alive e r h) = Phase.signalling 0 refl refl (ground (arith, h)) (ground arith)
stop-Phase s x (Phase.signalling n e r h k) = cc
stop-Phase s x (Phase.ended (inl e) h) = cc
stop-Phase s x (Phase.ended (inr e) h) = cc

signal_worker-Phase :
    (s : Pool) (n : ℕ)
    → s.ending ≡ Ending.signalling n
    → Phase s
    → Phase (record s { ending = Ending.signalling (suc n); task_sem = s.task_sem + 1 })
signal_worker-Phase s n x (Phase.alive e r h) = cc
signal_worker-Phase s n x (Phase.signalling m e r h k) =
    let same : n ≡ m = cc in Phase.signalling (suc n) refl r h (ground (arith, k, same))
signal_worker-Phase s n x (Phase.ended (inl e) h) = cc
signal_worker-Phase s n x (Phase.ended (inr e) h) = cc

drain-Phase :
    (s : Pool) (task : ℕ) (tasks : List ℕ)
    → s.ending ≡ Ending.draining
    → Phase s
    → Phase (record s { tasks = tasks; ran = s.ran ++ task ∷ [] })
drain-Phase s task tasks x (Phase.alive e r h) = cc
drain-Phase s task tasks x (Phase.signalling m e r h k) = cc
drain-Phase s task tasks x (Phase.ended e h) = Phase.ended e h

clean-Phase :
    (s : Pool) → s.ending ≡ Ending.draining → Phase s → Phase (record s { ending = Ending.gone })
clean-Phase s x (Phase.alive e r h) = cc
clean-Phase s x (Phase.signalling m e r h k) = cc
clean-Phase s x (Phase.ended e h) = Phase.ended (inr refl) h

signal-Phase :
    (s : Pool) (n : ℕ)
    → s.posting ≡ suc n
    → Phase s
    → Phase (record s { posting = n; task_sem = s.task_sem + 1 })
signal-Phase s n t (Phase.alive e r h) = Phase.alive e r (ground (arith, h, t))
signal-Phase s n t (Phase.signalling m e r h k) = Phase.signalling m e r h (ground (arith, k))
signal-Phase s n t (Phase.ended e h) = Phase.ended e h

pub step-Phase : {s t : Pool} → Step s t → Phase s → Phase t
step-Phase {s} (Step.enqueue task) p = enqueue-Phase s task p
step-Phase {s} (Step.signal n e) p = signal-Phase s n e p
step-Phase {s} (Step.wake ws ws' n w e) p = wake-Phase s ws ws' n w e p
step-Phase {s} (Step.go_on ws ws' w r) p = go_on-Phase s ws ws' w r p
step-Phase {s} (Step.leave ws ws' w r) p = leave-Phase s ws ws' w r p
step-Phase {s} (Step.fetch ws ws' task tasks w e) p = fetch-Phase s ws ws' task tasks w e p
step-Phase {s} (Step.finish ws ws' task w) p = finish-Phase s ws ws' task w p
step-Phase {s} (Step.stop e) p = stop-Phase s e p
step-Phase {s} (Step.signal_worker n k e l) p = signal_worker-Phase s n e p
step-Phase {s} (Step.join n e l a) p = Phase.ended (inl refl) a
step-Phase {s} (Step.drain task tasks e q) p = drain-Phase s task tasks e p
step-Phase {s} (Step.clean e q) p = clean-Phase s e p
