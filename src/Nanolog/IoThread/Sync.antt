-- ===== src/Nanolog/IoThread/Sync.antt =====
-- How a `sync` request fares with the IO thread.
use my_practise.Base.{◌+◌, ◌≡◌, refl, true, false, List, [], ◌∷◌, arith}
use my_practise.Nanolog.SwapBuffer.{empty, full}
use my_practise.Nanolog.IoThread.{SyncStatus, Io, Input, round, rounds}

module _ {Future : Type 0} where
  round-sync_pending :
      (i : Input Future) (s : Io Future)
      → s.sync_status ≡ SyncStatus.sync_pending
      → empty i.swap ≡ true
      → ((round i s).sync_status ≡ SyncStatus.double_check)
        × ((round i s).is_aioing ≡ s.is_aioing)
        × ((round i s).notified ≡ s.notified)
  unfolding round
  round-sync_pending i s p e = ground arith

  round-double_check :
      (i : Input Future) (s : Io Future)
      → s.sync_status ≡ SyncStatus.double_check
      → s.is_aioing ≡ false
      → empty i.swap ≡ true
      → (round i s).notified ≡ s.notified + 1
  unfolding round
  round-double_check i s p a e = ground arith

  round-aio_pending :
      (i : Input Future) (s : Io Future)
      → s.sync_status ≡ SyncStatus.aio_pending
      → s.is_aioing ≡ true
      → full i.swap ≡ false
      → ((round i s).sync_status ≡ SyncStatus.aio_pending)
        × ((round i s).is_aioing ≡ true)
        × ((round i s).notified ≡ s.notified)
  unfolding round
  round-aio_pending i s p a f = ground arith

  round-nonempty :
      (i : Input Future) (s : Io Future)
      → s.sync_status ≡ SyncStatus.sync_pending
      → empty i.swap ≡ false
      → ((round i s).sync_status ≡ SyncStatus.sync_pending) × ((round i s).notified ≡ s.notified)
  unfolding round
  round-nonempty i s p e = ground arith

  -- With nothing to read and no write under way, a request is served in two rounds.
  pub rounds-served :
      (i j : Input Future) (s : Io Future)
      → s.sync_status ≡ SyncStatus.sync_pending
      → s.is_aioing ≡ false
      → empty i.swap ≡ true
      → empty j.swap ≡ true
      → (rounds (i ∷ j ∷ []) s).notified ≡ s.notified + 1
  unfolding rounds
  rounds-served i j s p a e f =
      ground (arith, round-sync_pending i s, round-double_check j (round i s))

  abbrev pub NoneFull : List (Input Future) → Type 0
  NoneFull [] = Unit
  NoneFull (i ∷ is) = (full i.swap ≡ false) × NoneFull is

  -- A request that waits for the write under way is never served while the swap buffer is not full,
  -- however many rounds are made and although the write may have finished.
  pub rounds-stuck :
      (is : List (Input Future)) (s : Io Future)
      → s.sync_status ≡ SyncStatus.aio_pending
      → s.is_aioing ≡ true
      → NoneFull is
      → ((rounds is s).notified ≡ s.notified) × ((rounds is s).sync_status ≡ SyncStatus.aio_pending)
  unfolding rounds
  rounds-stuck [] s p a h = (refl, p)
  rounds-stuck (i ∷ is) s p a h = ground (arith, round-aio_pending i s, rounds-stuck is (round i s))

  abbrev pub NoneEmpty : List (Input Future) → Type 0
  NoneEmpty [] = Unit
  NoneEmpty (i ∷ is) = (empty i.swap ≡ false) × NoneEmpty is

  -- A new request is never served while the swap buffer holds a byte at the end of every reading.
  pub rounds-unserved :
      (is : List (Input Future)) (s : Io Future)
      → s.sync_status ≡ SyncStatus.sync_pending
      → NoneEmpty is
      → ((rounds is s).notified ≡ s.notified)
        × ((rounds is s).sync_status ≡ SyncStatus.sync_pending)
  unfolding rounds
  rounds-unserved [] s p h = (refl, p)
  rounds-unserved (i ∷ is) s p h =
      ground (arith, round-nonempty i s, rounds-unserved is (round i s))
