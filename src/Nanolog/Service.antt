-- ===== src/Nanolog/Service.antt =====
-- nanolog/include/Service.hpp: the flush service on an io_uring. A `FlushRequest *` is a number, the
-- requests are on a heap, and the state that a promise shares with its future outlives its request. The ring
-- and the calls of liburing are parameters.
pub mod Futures
mod Tests
use my_practise.Base.{
  ℕ, zero, suc, ◌+◌, ◌%◌, ◌^◌, Bool, true, false, not, ◌&&◌, List, [], ◌∷◌, Option, none, some, leb,
  ◌==◌, if◌then◌else◌, ℤ, pos, negsuc, is_negative,
}
use my_practise.Nanolog.SwapBuffer.{Block}

-- The state of a promise: no value yet, a value, or destroyed without one.
pub data Promised : Type 0 where
  waiting broken : Promised
  ready : Bool → Promised

pub record FlushRequest : Type 0 where
  pub fd : ℤ
  pub iovecs : List Block

pub record Heap : Type 0 where
  pub next : ℕ
  pub requests : ℕ → Option FlushRequest
  pub promises : ℕ → Promised
  pub retrieved : ℕ → Bool

-- A call returns, throws (`std::future_error`, a failed assert), or is undefined (a null or a freed
-- pointer is followed).
pub data Call {ℓ} (A : Type ℓ) : Type ℓ where
  returns : A → Call A
  throws : Call A
  undefined : Call A

-- How a function ends that has no `return` although it returns a pointer: behind its last statement,
-- with the state that it leaves there, what the program does is undefined.
pub data Ended {ℓ} (A : Type ℓ) : Type ℓ where
  flows_off : A → Ended A
  throws : Ended A
  undefined : Ended A

abbrev pub then_do : {A B : Type 0} → Call A → (A → Call B) → Call B
then_do (Call.returns x) f = f x
then_do Call.throws f = Call.throws
then_do Call.undefined f = Call.undefined

abbrev pub flow_off : {A B : Type 0} → Call A → (A → B) → Ended B
flow_off (Call.returns x) f = Ended.flows_off (f x)
flow_off Call.throws f = Ended.throws
flow_off Call.undefined f = Ended.undefined

-- `new FlushRequest(iovecs, fd)`
unfoldable pub new_request : List Block → ℤ → Heap → ℕ × Heap
new_request v fd h = (
  h.next,
  record {
    next = suc h.next;
    requests = λ p. if p == h.next then some (record { fd = fd; iovecs = v }) else h.requests p;
    promises = λ p. if p == h.next then Promised.waiting else h.promises p;
    retrieved = λ p. if p == h.next then false else h.retrieved p;
  },
)

abbrev pub abandon : Promised → Promised
abandon Promised.waiting = Promised.broken
abandon st = st

-- `delete request`, with its promise.
unfoldable pub delete_request : ℕ → Heap → Heap
delete_request r h = record h {
  requests = λ p. if p == r then none else h.requests p;
  promises = λ p. if p == r then abandon (h.promises p) else h.promises p;
}

-- `mRequest->mPromise.get_future()`; the future of a request bears its number.
unfoldable pub get_future : ℕ → Heap → Call (ℕ × Heap)
get_future r h = elim (h.requests r) [
  | none ↦ Call.undefined
  | some q ↦
      if h.retrieved r
      then Call.throws
      else Call.returns (r, record h { retrieved = λ p. if p == r then true else h.retrieved p })
]

-- `mPromise.set_value(value)`
unfoldable pub set_value : ℕ → Bool → Heap → Call Heap
set_value r value h = elim (h.requests r) [
  | none ↦ Call.undefined
  | some q ↦ elim (h.promises r) [
    | Promised.waiting ↦
        Call.returns
          (record h { promises = λ p. if p == r then Promised.ready value else h.promises p })
    | _ ↦ Call.throws
  ]
]

pub record SqeFlusher : Type 0 where
  pub request : Option ℕ
  pub is_flush : Bool

unfoldable pub make_flush_request : List Block → ℤ → Heap → SqeFlusher × Heap
unfolding new_request
make_flush_request v fd h =
    (record { request = some (new_request v fd h).0; is_flush = false }, (new_request v fd h).1)

-- The move constructor: the new flusher, and the one that it is made of.
unfoldable pub move_construct : SqeFlusher → SqeFlusher × SqeFlusher
move_construct flusher = (flusher, record flusher { request = none })

-- The move assignment: what is assigned to is overwritten.
unfoldable pub move_assign : SqeFlusher → SqeFlusher → SqeFlusher × SqeFlusher
move_assign self flusher = (flusher, record flusher { request = none })

-- The destructor of `SqeFlusher`.
unfoldable pub destroy_flusher : SqeFlusher → Heap → Call Heap
unfolding set_value delete_request
destroy_flusher f h = elim f.request [
  | none ↦ Call.returns h
  | some r ↦
      if f.is_flush
      then Call.returns h
      else then_do (set_value r false h) (λ h'. Call.returns (delete_request r h'))
]

-- The destructor of `CqeCleaner`.
unfoldable pub destroy_cleaner : Option ℕ → Heap → Heap
unfolding delete_request
destroy_cleaner none h = h
destroy_cleaner (some r) h = delete_request r h

-- What `io_uring_wait_cqe` delivers: its result, and the entry's `user_data` and `res`.
pub record Completion : Type 0 where
  pub ret : ℤ
  pub user_data : ℕ
  pub res : ℤ

pub record Service (Ring : Type 0) : Type 0 where
  pub ring : Ring
  pub sqe_ready_number : ℕ
  pub heap : Heap

-- The calls of liburing on the ring; an entry is a number, and the null pointer is none.
pub record Uring (Ring : Type 0) : Type 0 where
  pub get_sqe : Ring → Option ℕ × Ring
  pub sqe_set_data : ℕ → ℕ → Ring → Ring
  pub prep_writev : ℕ → ℤ → List Block → Ring → Ring
  pub submit : Ring → Ring
  pub cqe_seen : Ring → Ring

abbrev pub submit_high_water_mark : ℕ
submit_high_water_mark = 0

module _ {Ring : Type 0} (u : Uring Ring) where
  -- `SqeFlusher::flush`: the future, the flusher behind it, the heap and the ring.
  unfoldable pub flush : Option ℕ → SqeFlusher → Heap → Ring → Call (ℕ × SqeFlusher × Heap × Ring)
  unfolding get_future
  flush sqe f h g = elim f.request [
    | none ↦ Call.undefined
    | some r ↦
        if f.is_flush
        then then_do (get_future r h) (λ x. Call.returns (x.0, f, x.1, g))
        else elim sqe [
          | none ↦ Call.undefined
          | some e ↦ elim (h.requests r) [
            | none ↦ Call.undefined
            | some q ↦ then_do (get_future r h) (λ x. Call.returns (
              x.0,
              record f { is_flush = true },
              x.1,
              u.prep_writev e q.fd q.iovecs (u.sqe_set_data e r g),
            ))
          ]
        ]
  ]

  unfoldable pub non_sync_submit : Service Ring → Service Ring
  non_sync_submit s =
      let s' = record s { sqe_ready_number = (s.sqe_ready_number + 1) % 2 ^ 64 } in
      if leb submit_high_water_mark s'.sqe_ready_number
      then record s' { ring = u.submit s'.ring }
      else s'

  -- `aio_flush`: the temporary flusher is destroyed before the entry is submitted.
  unfoldable pub aio_flush : List Block → ℤ → Service Ring → Call (Option ℕ × Service Ring)
  unfolding flush make_flush_request destroy_flusher non_sync_submit
  aio_flush [] fd s = Call.returns (none, s)
  aio_flush (b ∷ v) fd s =
      let sqe = u.get_sqe s.ring in
      let made = make_flush_request (b ∷ v) fd s.heap in
      then_do (flush sqe.0 made.0 made.1 sqe.1) (λ x.
        then_do (destroy_flusher x.1 x.2)
          (λ h. Call.returns (some x.0, non_sync_submit (record s { ring = x.3; heap = h }))))

  -- `get_cqe_request_ptr`
  unfoldable pub complete : Completion → Service Ring → Ended (Service Ring)
  unfolding set_value
  complete c s =
      if is_negative c.ret
      then Ended.throws
      else flow_off (set_value c.user_data (not (is_negative c.res)) s.heap)
          (λ h. record s { heap = h; ring = u.cqe_seen s.ring })
