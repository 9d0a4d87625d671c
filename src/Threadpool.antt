-- ===== src/Threadpool.antt =====
-- threadpool/ThreadPool.hpp and threadpool/ThreadPool.cpp, `ThreadPoolImpl`: the threads that post,
-- the workers and the destructor as the steps of one pool. A task is a number.
pub mod Tokens
pub mod Phases
pub mod Promises
pub mod Duties
pub mod Destruction
pub mod Destroyed
pub mod Instance
pub mod Task
mod Tests
use my_practise.Base.{ℕ, zero, suc, ◌+◌, ◌-◌, ◌≡◌, Bool, true, false, List, [], ◌∷◌, ◌++◌, length}

-- Where a worker stands in the loop of `WorkThreadMain`.
pub data Worker : Type 0 where
  waiting : Worker  -- at `sem_wait`
  testing : Worker  -- behind it, before the test of `running`
  fetching : Worker  -- before the lock of `tasksMutex`
  working : (task : ℕ) → Worker
  stopped : Worker

-- Where the destructor stands: not called, with this many of the workers signalled, draining the
-- queue, or behind it.
pub data Ending : Type 0 where
  alive : Ending
  signalling : (n : ℕ) → Ending
  draining : Ending
  gone : Ending

-- `posting` counts the threads between the two halves of `postTask`; `posted` and `ran` are the
-- tasks put into the queue and those taken out to run, in order.
pub record Pool : Type 0 where
  pub tasks : List ℕ
  pub task_sem : ℕ
  pub running : Bool
  pub workers : List Worker
  pub ending : Ending
  pub posting : ℕ
  pub posted : List ℕ
  pub ran : List ℕ

abbrev pub all_waiting : ℕ → List Worker
all_waiting zero = []
all_waiting (suc n) = Worker.waiting ∷ all_waiting n

-- The constructor, on `cpu_number` processors.
unfoldable pub make : ℕ → Pool
make cpu_number = record {
  tasks = [];
  task_sem = 0;
  running = true;
  workers = all_waiting cpu_number;
  ending = Ending.alive;
  posting = 0;
  posted = [];
  ran = [];
}

-- How many of the workers a test of where they stand counts.
unfoldable pub tally : (Worker → ℕ) → List Worker → ℕ
tally f [] = 0
tally f (w ∷ ws) = f w + tally f ws

-- A worker that `join` still waits for.
abbrev pub unstopped : Worker → ℕ
unstopped Worker.stopped = 0
unstopped _ = 1

-- One step of one thread.
pub data Step (s : Pool) : Pool → Type 0 where
  -- `postTask`: under the lock, and behind it
  enqueue :
      (task : ℕ)
      → Step s (record s {
        tasks = s.tasks ++ task ∷ [];
        posted = s.posted ++ task ∷ [];
        posting = s.posting + 1;
      })
  signal :
      (n : ℕ) → s.posting ≡ suc n → Step s (record s { posting = n; task_sem = s.task_sem + 1 })
  -- `WorkThreadMain` of the worker between `ws` and `ws'`
  wake :
      (ws ws' : List Worker) (n : ℕ)
      → s.workers ≡ ws ++ Worker.waiting ∷ ws'
      → s.task_sem ≡ suc n
      → Step s (record s { task_sem = n; workers = ws ++ Worker.testing ∷ ws' })
  go_on :
      (ws ws' : List Worker)
      → s.workers ≡ ws ++ Worker.testing ∷ ws'
      → s.running ≡ true
      → Step s (record s { workers = ws ++ Worker.fetching ∷ ws' })
  leave :
      (ws ws' : List Worker)
      → s.workers ≡ ws ++ Worker.testing ∷ ws'
      → s.running ≡ false
      → Step s (record s { workers = ws ++ Worker.stopped ∷ ws' })
  fetch :
      (ws ws' : List Worker) (task : ℕ) (tasks : List ℕ)
      → s.workers ≡ ws ++ Worker.fetching ∷ ws'
      → s.tasks ≡ task ∷ tasks
      → Step s (record s {
        tasks = tasks;
        workers = ws ++ Worker.working task ∷ ws';
        ran = s.ran ++ task ∷ [];
      })
  finish :
      (ws ws' : List Worker) (task : ℕ)
      → s.workers ≡ ws ++ Worker.working task ∷ ws'
      → Step s (record s { workers = ws ++ Worker.waiting ∷ ws' })
  -- `~ThreadPoolImpl`
  stop :
      s.ending ≡ Ending.alive → Step s (record s { running = false; ending = Ending.signalling 0 })
  signal_worker :
      (n k : ℕ)
      → s.ending ≡ Ending.signalling n
      → length s.workers ≡ n + suc k
      → Step s (record s { ending = Ending.signalling (suc n); task_sem = s.task_sem + 1 })
  join :
      (n : ℕ)
      → s.ending ≡ Ending.signalling n
      → length s.workers ≡ n
      → tally unstopped s.workers ≡ 0
      → Step s (record s { ending = Ending.draining })
  drain :
      (task : ℕ) (tasks : List ℕ)
      → s.ending ≡ Ending.draining
      → s.tasks ≡ task ∷ tasks
      → Step s (record s { tasks = tasks; ran = s.ran ++ task ∷ [] })
  clean : s.ending ≡ Ending.draining → s.tasks ≡ [] → Step s (record s { ending = Ending.gone })

-- The pools that threads can make of a new one.
pub data Reach (cpu_number : ℕ) : Pool → Type 0 where
  created : Reach cpu_number (make cpu_number)
  then : (s t : Pool) → Reach cpu_number s → Step s t → Reach cpu_number t
