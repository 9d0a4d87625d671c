-- ===== src/Lockfree/Queue.antt =====
-- lockfree/Concurrent.hpp, `LockFreeListQueue`: `Push` and `Pop` as steps of one access to shared
-- memory each. A node is its address, 0 the null pointer; the node at `head` is a dummy, whose
-- successor has the first value.
pub mod Fifo
pub mod Line
pub mod Sequence
pub mod Lifetime
pub mod Threads
mod Tests
use my_practise.Base.{
  ℕ, suc, ◌+◌, ◌-◌, ◌%◌, ◌^◌, Bool, true, false, not, ◌&&◌, Option, none, some, ◌==◌, if◌then◌else◌,
}
use my_practise.Lockfree.Sanitizer
use my_practise.Lockfree.Sanitizer.{Sanitizer}
use my_practise.Lockfree.Stack.{assign}

pub record Queue : Type 0 where
  pub head : ℕ
  pub tail : ℕ
  pub size : ℕ
  pub next : ℕ → ℕ
  pub value : ℕ → Option ℕ
  pub sanitizer : Sanitizer

-- Where a thread stands in `Push`; `pre` is `pre_ori_node_ptr`, `ori` is `ori_node_ptr`.
pub data QueuePush : Type 0 where
  start : (node v : ℕ) → QueuePush  -- `node` is what `new` will return
  load_tail : (node : ℕ) → QueuePush
  protect : (pre node : ℕ) → QueuePush
  recheck : (pre node : ℕ) → QueuePush
  read_next : (ori node : ℕ) → QueuePush
  help : (ori next node : ℕ) → QueuePush
  append : (ori node : ℕ) → QueuePush
  swing : (ori node : ℕ) → QueuePush
  count : QueuePush
  pushed : QueuePush

-- `hp` is the thread's registration with the sanitizer.
unfoldable pub queue_push_step : Option ℕ → QueuePush → Queue → QueuePush × Queue
queue_push_step hp (QueuePush.start node v) q = (
  QueuePush.load_tail node,
  record q { next = assign q.next node 0; value = assign q.value node (some v) },
)
queue_push_step hp (QueuePush.load_tail node) q = (QueuePush.protect q.tail node, q)
queue_push_step hp (QueuePush.protect pre node) q =
    (QueuePush.recheck pre node, record q { sanitizer = (Sanitizer.access hp pre q.sanitizer).1 })
queue_push_step hp (QueuePush.recheck pre node) q =
    if q.tail == pre then (QueuePush.read_next pre node, q) else (QueuePush.protect q.tail node, q)
queue_push_step hp (QueuePush.read_next ori node) q =
    if q.next ori == 0
    then (QueuePush.append ori node, q)
    else (QueuePush.help ori (q.next ori) node, q)
queue_push_step hp (QueuePush.help ori next node) q =
    (QueuePush.protect ori node, if q.tail == ori then record q { tail = next } else q)
queue_push_step hp (QueuePush.append ori node) q =
    if q.next ori == 0
    then (QueuePush.swing ori node, record q { next = assign q.next ori node })
    else (QueuePush.protect ori node, q)
queue_push_step hp (QueuePush.swing ori node) q =
    (QueuePush.count, if q.tail == ori then record q { tail = node } else q)
queue_push_step hp QueuePush.count q = (QueuePush.pushed, record q { size = (q.size + 1) % 2 ^ 64 })
queue_push_step hp QueuePush.pushed q = (QueuePush.pushed, q)

-- Where a thread stands in `Pop`.
pub data QueuePop : Type 0 where
  load_head : QueuePop
  load_tail : (head : ℕ) → QueuePop
  load_next : (head tail : ℕ) → QueuePop
  decide : (head tail next : ℕ) → QueuePop
  help : (tail next : ℕ) → QueuePop
  protect : (head next : ℕ) → QueuePop
  protect_next : (head next : ℕ) → QueuePop
  swap : (head next : ℕ) → QueuePop
  take : (head next : ℕ) → QueuePop
  count : (head : ℕ) (ret : Option ℕ) → QueuePop
  clear : (head : ℕ) (ret : Option ℕ) → QueuePop
  free : (head : ℕ) (ret : Option ℕ) → QueuePop
  popped : (ret : Option ℕ) → QueuePop

unfoldable pub queue_pop_step : Option ℕ → QueuePop → Queue → QueuePop × Queue
queue_pop_step hp QueuePop.load_head q = (QueuePop.load_tail q.head, q)
queue_pop_step hp (QueuePop.load_tail head) q = (QueuePop.load_next head q.tail, q)
queue_pop_step hp (QueuePop.load_next head tail) q = (QueuePop.decide head tail (q.next head), q)
queue_pop_step hp (QueuePop.decide head tail next) q =
    if head == tail && next == 0
    then (QueuePop.popped none, q)
    else if head == tail && not (next == 0)
    then (QueuePop.help tail next, q)
    else (QueuePop.protect head next, q)
queue_pop_step hp (QueuePop.help tail next) q =
    (QueuePop.load_head, if q.tail == tail then record q { tail = next } else q)
queue_pop_step hp (QueuePop.protect head next) q = (
  QueuePop.protect_next head next,
  record q { sanitizer = (Sanitizer.access hp head q.sanitizer).1 },
)
queue_pop_step hp (QueuePop.protect_next head next) q =
    (QueuePop.swap head next, record q { sanitizer = (Sanitizer.access hp next q.sanitizer).1 })
queue_pop_step hp (QueuePop.swap head next) q =
    if q.head == head
    then (QueuePop.take head next, record q { head = next })
    else (QueuePop.load_head, q)
queue_pop_step hp (QueuePop.take head next) q =
    (QueuePop.count head (q.value next), record q { value = assign q.value next none })
queue_pop_step hp (QueuePop.count head ret) q =
    (QueuePop.clear head ret, record q { size = (q.size + 2 ^ 64 - 1) % 2 ^ 64 })
queue_pop_step hp (QueuePop.clear head ret) q =
    (QueuePop.free head ret, record q { sanitizer = (Sanitizer.reset hp q.sanitizer).1 })
queue_pop_step hp (QueuePop.free head ret) q =
    (QueuePop.popped ret, record q { sanitizer = (Sanitizer.release head q.sanitizer).1 })
queue_pop_step hp (QueuePop.popped ret) q = (QueuePop.popped ret, q)
