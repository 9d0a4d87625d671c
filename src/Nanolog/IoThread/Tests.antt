-- ===== src/Nanolog/IoThread/Tests.antt =====
-- The theorems on the IO thread at concrete inputs.
use my_practise.Base.{ℕ, ◌≡◌, refl, true, false, [], ◌∷◌, none, arith, Memory}
use my_practise.Nanolog.LoggerBuffer
use my_practise.Nanolog.LoggerBuffer.{consume_buffer_with_size}
use my_practise.Nanolog.SwapBuffer.{SwapBuffer, Outcome, full}
use my_practise.Nanolog.IoThread.{SyncStatus, Io, Input, Draining}
use my_practise.Nanolog.IoThread.Rings.{read_rings}
use my_practise.Nanolog.IoThread.Rings.Spin.{Heavy, two_rings, read_rings-spin}

abbrev blank : Memory
blank _ = 0

abbrev mallocs : ℕ → Memory
mallocs _ = blank

abbrev holding : ℕ → SwapBuffer ℕ
holding n = record {
  loaded_buffer_size = n;
  is_full = false;
  flush_future = none;
  cur_loading_pos = n;
  cur_loading_buffer_index = 0;
  loading_buffer_vector = record { base = blank; len = 0 } ∷ [];
  flushing_buffer_vector = [];
}

abbrev draining : Draining ℕ
draining = record { swap = holding 10; buffer = LoggerBuffer.make blank 3; consumed = 5 }

abbrev input : ℕ → Input ℕ
input n = record {
  swap = holding n;
  consumed = 0;
  requested = false;
  aio_ready = true;
  service = λ _. none;
}

abbrev io : SyncStatus → ℕ → Io ℕ
io st n = record {
  swap = holding n;
  is_aioing = false;
  sync_status = st;
  aio_complete_times_count = 0;
  aio_bytes_count = 0;
  notified = 0;
}

abbrev writing : Io ℕ
writing = record (io SyncStatus.aio_pending 7) { is_aioing = true }

-- 20000 bytes wait in the ring.
abbrev heavy : LoggerBuffer.LoggerBuffer
heavy = record (LoggerBuffer.make blank 1) { produce_pos = 20000 }

heavy-Heavy : Heavy (holding 0) heavy
unfolding LoggerBuffer.make LoggerBuffer.peek_full_available_buffer
heavy-Heavy = record {
  place = 0;
  count = 20000;
  peeks = refl;
  small = omega arith;
  unfit = omega arith;
}

read_rings-spin_example :
    read_rings mallocs 100 0 (two_rings (holding 0) heavy heavy 0 false 0) ≡ Outcome.out_of_fuel
unfolding full
read_rings-spin_example =
    read_rings-spin mallocs 100 (holding 0) heavy heavy 0 false 0 refl (omega arith) heavy-Heavy
      heavy-Heavy
