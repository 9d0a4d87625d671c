-- ===== src/Threadpool/Promises.antt =====
-- What the pool promises in every state that its threads can reach.
use my_practise.Base.{
  ℕ, ◌+◌, ◌≤◌, ◌≡◌, ◌≢◌, refl, sym, ap, ◌∙◌, List, [], ◌∷◌, ◌++◌, length, append_assoc, arith,
}
use my_practise.Threadpool.{Worker, Pool, Step, Reach, tally, unstopped, make}
use my_practise.Threadpool.Tokens.{
  is_waiting, is_testing, is_fetching, is_stopped, tally-append, Phase,
}
use my_practise.Threadpool.Phases.{make-Phase, step-Phase}

pub reach-Phase : (n : ℕ) (s : Pool) → Reach n s → Phase s
reach-Phase n _ (Reach.created) = make-Phase n
reach-Phase n _ (Reach.then s t r x) = step-Phase x (reach-Phase n s r)

step-order : {s t : Pool} → Step s t → s.posted ≡ s.ran ++ s.tasks → t.posted ≡ t.ran ++ t.tasks
step-order {s} (Step.enqueue task) p =
    ap (λ r. r ++ task ∷ []) p ∙ append_assoc s.ran s.tasks (task ∷ [])
step-order (Step.signal n e) p = p
step-order (Step.wake ws ws' n w e) p = p
step-order (Step.go_on ws ws' w r) p = p
step-order (Step.leave ws ws' w r) p = p
step-order {s} (Step.fetch ws ws' task tasks w e) p =
    p ∙ ap (λ r. s.ran ++ r) e ∙ sym (append_assoc s.ran (task ∷ []) tasks)
step-order (Step.finish ws ws' task w) p = p
step-order (Step.stop e) p = p
step-order (Step.signal_worker n k e l) p = p
step-order (Step.join n e l a) p = p
step-order {s} (Step.drain task tasks e q) p =
    p ∙ ap (λ r. s.ran ++ r) q ∙ sym (append_assoc s.ran (task ∷ []) tasks)
step-order (Step.clean e q) p = p

-- In every reachable state the posted tasks are, in their order, those taken out to run and then
-- those in the queue: none is lost, run twice or overtaken.
pub tasks_in_order : (n : ℕ) (s : Pool) → Reach n s → s.posted ≡ s.ran ++ s.tasks
unfolding make
tasks_in_order n _ (Reach.created) = refl
tasks_in_order n _ (Reach.then s t r x) = step-order x (tasks_in_order n s r)

-- A worker that is about to take a task finds the queue non-empty.
pub fetch_nonempty :
    (n : ℕ) (s : Pool) (ws ws' : List Worker)
    → Reach n s
    → s.workers ≡ ws ++ Worker.fetching ∷ ws'
    → s.tasks ≢ []
fetch_nonempty n s ws ws' r w none =
    let count = ap (tally is_fetching) w ∙ tally-append is_fetching ws Worker.fetching ws' in
    let empty = ap length none in
    let all = ap (tally unstopped) w ∙ tally-append unstopped ws Worker.fetching ws' in
    elim (reach-Phase n s r) [
      | Phase.alive e q h ↦ ground (arith, h, count, empty)
      | Phase.signalling m e q h k ↦ ground (arith, h, count, empty)
      | Phase.ended e h ↦ ground (arith, h, all)
    ]

pub apart :
    (ws : List Worker) → tally is_waiting ws + tally is_stopped ws + tally is_testing ws ≤ length ws
unfolding tally
apart [] = ground arith
apart (Worker.waiting ∷ ws) = ground (arith, apart ws)
apart (Worker.testing ∷ ws) = ground (arith, apart ws)
apart (Worker.fetching ∷ ws) = ground (arith, apart ws)
apart (Worker.working t ∷ ws) = ground (arith, apart ws)
apart (Worker.stopped ∷ ws) = ground (arith, apart ws)
