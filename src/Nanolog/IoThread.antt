-- ===== src/Nanolog/IoThread.antt =====
-- nanolog/Logger.cpp, `IoBackgroundThreadFunction` and `sync_internal`: how the IO thread drains a
-- buffer that it has peeked at, and the three stages by which each round of its loop ends (empty
-- buffer, waiting for the asynchronous write, next write), with the state of a `sync` request.
-- What a round depends on from outside is its `Input`.
pub mod Drain
pub mod Sync
pub mod Rings
mod Tests
use my_practise.Base.{
  ℕ, zero, suc, ◌+◌, ◌-◌, ◌%◌, ◌^◌, Bool, true, false, not, ◌&&◌, List, [], ◌∷◌, Option, none, some,
  ltb, ◌==◌, if◌then◌else◌, drop, Memory,
}
use my_practise.Nanolog.LoggerBuffer.{LoggerBuffer, consume_buffer_with_size}
use my_practise.Nanolog.SwapBuffer
use my_practise.Nanolog.SwapBuffer.{
  SwapBuffer, Block, Outcome, load_buffer_from, aio_flush, size, empty, full,
}

pub data SyncStatus : Type 0 where
  sync_pending double_check aio_pending completed : SyncStatus

-- What the thread owns while it drains one `LoggerBuffer`.
pub record Draining (Future : Type 0) : Type 0 where
  pub swap : SwapBuffer Future
  pub buffer : LoggerBuffer
  pub consumed : ℕ  -- consumedBytesInCurrentIteration

module _ {Future : Type 0} where
  -- `while (remaining > 0)`, for the bytes `message` at `availableBufferHead + peekBytes - remaining`;
  -- true is the `break` at a full buffer.
  unfoldable pub drain_loop :
      (ℕ → Memory) → ℕ → ℕ → List ℕ → Draining Future → Outcome (Bool × Draining Future)
  drain_loop mallocs zero remaining message d = Outcome.out_of_fuel
  drain_loop mallocs (suc fuel) zero message d = Outcome.returns (false, d)
  drain_loop mallocs (suc fuel) (suc r) message d =
      elim (load_buffer_from mallocs message (suc r) d.swap) [
        | Outcome.undefined ↦ Outcome.undefined
        | Outcome.out_of_fuel ↦ Outcome.out_of_fuel
        | Outcome.returns (zero, swap') ↦ Outcome.returns (true, record d { swap = swap' })
        | Outcome.returns (suc k, swap') ↦
            drain_loop mallocs fuel (suc r - suc k) (drop (suc k) message) (record {
              swap = swap';
              buffer = consume_buffer_with_size (suc k) d.buffer;
              consumed = (d.consumed + suc k) % 2 ^ 64;
            })
      ]

-- The part of `Logger` that the end of a round works on; `notified` counts the calls of
-- `mSyncCompleteVariable.notify_one`.
pub record Io (Future : Type 0) : Type 0 where
  pub swap : SwapBuffer Future
  pub is_aioing : Bool
  pub sync_status : SyncStatus
  pub aio_complete_times_count : ℕ
  pub aio_bytes_count : ℕ
  pub notified : ℕ

-- What happens to one round: the buffer and the byte count that its reading leaves, whether another
-- thread asks for a sync while `mWorkAddedVariable` is waited on, whether the asynchronous write
-- finishes within the time limit, and what a flush returns.
pub record Input (Future : Type 0) : Type 0 where
  pub swap : SwapBuffer Future
  pub consumed : ℕ
  pub requested : Bool
  pub aio_ready : Bool
  pub service : List Block → Option Future

abbrev pub after_check : Bool → SyncStatus → SyncStatus
after_check aioing SyncStatus.double_check =
    if aioing then SyncStatus.aio_pending else SyncStatus.completed
after_check aioing st = st

abbrev pub is_completed : SyncStatus → Bool
is_completed SyncStatus.completed = true
is_completed _ = false

abbrev pub is_aio_pending : SyncStatus → Bool
is_aio_pending SyncStatus.aio_pending = true
is_aio_pending _ = false

module _ {Future : Type 0} where
  -- `sync_internal` up to its wait: whether the caller waits, and the state.
  unfoldable pub sync_internal : Io Future → Bool × Io Future
  sync_internal s =
      if is_completed s.sync_status
      then (true, record s { sync_status = SyncStatus.sync_pending })
      else (false, s)

  -- The wait for work, with the lock released.
  unfoldable pub rest_for_work : Input Future → Io Future → Io Future
  unfolding sync_internal
  rest_for_work i s =
      let woken = record s { notified = s.notified + 1 } in
      if i.requested then (sync_internal woken).1 else woken

  -- Whether the round goes on to the next stage (false is `continue`), and the state.
  unfoldable pub empty_aio_buffer_stage : Input Future → Io Future → Bool × Io Future
  unfolding rest_for_work empty
  empty_aio_buffer_stage i s = if not (empty s.swap) then (true, s) else elim s.sync_status [
    | SyncStatus.sync_pending ↦ (false, record s { sync_status = SyncStatus.double_check })
    | st ↦
        let s' = record s { sync_status = after_check s.is_aioing st } in
        (true, if is_completed s'.sync_status then rest_for_work i s' else s')
  ]

  unfoldable pub finish_aio : Io Future → Io Future
  finish_aio s =
      let s' = record s {
        aio_complete_times_count = (s.aio_complete_times_count + 1) % 2 ^ 64;
        is_aioing = false;
      } in
      if is_aio_pending s.sync_status
      then record s' { sync_status = SyncStatus.completed; notified = s.notified + 1 }
      else s'

  -- Whether `wait_for_aio_timeout` is called, and returns true: with a full buffer it waits to the
  -- end, and else for a moment, if nothing was read and no sync waits for the write.
  unfoldable pub aio_complete : Input Future → Io Future → Bool
  unfolding full
  aio_complete i s =
      if full s.swap
      then true
      else i.consumed == 0 && not (is_aio_pending s.sync_status) && i.aio_ready

  unfoldable pub aio_waiting_stage : Input Future → Io Future → Bool × Io Future
  unfolding finish_aio aio_complete
  aio_waiting_stage i s =
      if not s.is_aioing
      then (true, s)
      else if aio_complete i s
      then (true, finish_aio s)
      else (false, s)

  -- `mAioBytesCount += mSwapBuffer.size()`: the `bool` counts 1.
  unfoldable pub aio_stage : Input Future → Io Future → Io Future
  unfolding size empty aio_flush
  aio_stage i s = if empty s.swap then s else record s {
    swap = (aio_flush i.service s.swap).1;
    is_aioing = true;
    aio_bytes_count = (s.aio_bytes_count + (if size s.swap then 1 else 0)) % 2 ^ 64;
  }

  -- One round of the loop of `IoBackgroundThreadFunction` behind its reading.
  unfoldable pub round : Input Future → Io Future → Io Future
  unfolding empty_aio_buffer_stage aio_waiting_stage aio_stage
  round i s =
      let (on, s1) = empty_aio_buffer_stage i (record s { swap = i.swap }) in
      let (on', s2) = aio_waiting_stage i s1 in
      if not on then s1 else if not on' then s2 else aio_stage i s2

  unfoldable pub rounds : List (Input Future) → Io Future → Io Future
  rounds [] s = s
  rounds (i ∷ is) s = rounds is (round i s)
