-- ===== src/Threadpool/Destroyed.antt =====
-- What `~ThreadPoolImpl` leaves behind at its end.
use my_practise.Base.{
  ℕ, zero, suc, ◌≤◌, ◌≡◌, ◌≢◌, ◌⊎◌, inl, inr, refl, sym, ap, ◌∙◌, [], ◌++◌, append-nil, arith,
}
use my_practise.Threadpool.{Ending, Pool, Step, Reach, tally, unstopped}
use my_practise.Threadpool.Tokens.{Phase}
use my_practise.Threadpool.Promises.{reach-Phase, tasks_in_order}
use my_practise.Threadpool.Duties.{remaining, Progress}
use my_practise.Threadpool.Destruction.{next_step}

-- Steps of the workers and the destructor, one after the other.
pub data Run : Pool → Pool → Type 0 where
  done : (s : Pool) → Run s s
  more : (s t u : Pool) → Step s t → Run t u → Run s u

-- A run from `s` ends at `u`: the destructor is over, every worker has returned, the queue is empty, and
-- the tasks that were posted, none since `s`, were all taken out to run, in order.
abbrev pub Finished : Pool → Pool → Type 0
Finished s u =
    Run s u
    × (u.ending ≡ Ending.gone)
    × (tally unstopped u.workers ≡ 0)
    × (u.tasks ≡ [])
    × (u.posted ≡ s.posted)
    × (u.ran ≡ s.posted)

gone-cases : (e : Ending) → (e ≡ Ending.gone) ⊎ (e ≢ Ending.gone)
gone-cases Ending.alive = inr (λ x. cc)
gone-cases (Ending.signalling m) = inr (λ x. cc)
gone-cases Ending.draining = inr (λ x. cc)
gone-cases Ending.gone = inl refl

step-emptied :
    {s t : Pool} → Step s t → s.ending ≢ Ending.gone → t.ending ≡ Ending.gone → t.tasks ≡ []
step-emptied (Step.enqueue task) over g = absurd (over g)
step-emptied (Step.signal n e) over g = absurd (over g)
step-emptied (Step.wake ws ws' n w e) over g = absurd (over g)
step-emptied (Step.go_on ws ws' w r) over g = absurd (over g)
step-emptied (Step.leave ws ws' w r) over g = absurd (over g)
step-emptied (Step.fetch ws ws' task tasks w e) over g = absurd (over g)
step-emptied (Step.finish ws ws' task w) over g = absurd (over g)
step-emptied (Step.stop e) over g = absurd (cc)
step-emptied (Step.signal_worker n k e l) over g = absurd (cc)
step-emptied (Step.join n e l a) over g = absurd (cc)
step-emptied (Step.drain task tasks e q) over g = absurd (over g)
step-emptied (Step.clean e q) over g = q

stopped_all :
    (n : ℕ) (s : Pool) → Reach n s → s.ending ≡ Ending.gone → tally unstopped s.workers ≡ 0
stopped_all n s r x = elim (reach-Phase n s r) [
  | Phase.alive e q h ↦ absurd (cc)
  | Phase.signalling m e q h k ↦ absurd (cc)
  | Phase.ended e h ↦ h
]

-- Whichever step brings the destructor to its end, every worker has returned then, the queue is empty
-- and every task that was posted was taken out to run, in order.
pub destroyed_complete :
    (n : ℕ) (s t : Pool)
    → Reach n s
    → Step s t
    → s.ending ≢ Ending.gone
    → t.ending ≡ Ending.gone
    → (tally unstopped t.workers ≡ 0) × (t.tasks ≡ []) × (t.ran ≡ t.posted)
destroyed_complete n s t r st over g =
    let r' : Reach n t = Reach.then s t r st in
    let none = step-emptied st over g in
    (
      stopped_all n t r' g,
      none,
      sym (tasks_in_order n t r' ∙ ap (λ q. t.ran ++ q) none ∙ append-nil t.ran),
    )

ends_within :
    (k n : ℕ) (s : Pool)
    → remaining s ≤ k
    → Reach n s
    → s.ending ≢ Ending.alive
    → s.ending ≢ Ending.gone
    → (u : Pool) × Finished s u
ends_within zero n s le r begun over =
    let (t, p) = next_step n s r begun over in absurd (omega (arith, p.less, le))
ends_within (suc k) n s le r begun over =
    let (t, p) = next_step n s r begun over in
    elim (gone-cases t.ending) [
      | inl g ↦
          let (a, q, ran) = destroyed_complete n s t r p.step over g in
          (t, (Run.more s t t p.step (Run.done t), g, a, q, p.same_posted, ran ∙ p.same_posted))
      | inr g ↦
          let (u, (run, x, a, q, same, ran)) =
            ends_within k n t (omega (arith, p.less, le)) (Reach.then s t r p.step) p.begun g in
          (u, (Run.more s t u p.step run, x, a, q, same ∙ p.same_posted, ran ∙ p.same_posted))
    ]

-- Once the destructor has begun and until it is over, a worker or the destructor can take a step, and
-- the step leaves less for them to do; and steps that post nothing lead to the end of the destructor,
-- with every worker returned, the queue empty and every posted task taken out to run.
pub destructor_goes_on :
    (n : ℕ) (s : Pool)
    → Reach n s
    → s.ending ≢ Ending.alive
    → s.ending ≢ Ending.gone
    → ((t : Pool) × Progress s t) × ((u : Pool) × Finished s u)
destructor_goes_on n s r begun over =
    (next_step n s r begun over, ends_within (remaining s) n s (omega arith) r begun over)
