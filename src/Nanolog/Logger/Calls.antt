-- ===== src/Nanolog/Logger/Calls.antt =====
-- What the calls of the logger do to it, on every branch.
use my_practise.Base.{
  ℕ, ◌≡◌, refl, true, List, [], ◌∷◌, ◌++◌, none, if◌then◌else◌, Memory, min, ℤ, is_negative, arith,
}
use my_practise.Nanolog.Logger.{
  Logger, Effect, ThreadStatus, BufferPtr, debug, set_log_level, get_log_level,
  ask_for_buffer_with_size,
}

-- The calls outside of the memory that the change to an open file makes.
abbrev pub switch_effects : ℤ → ℤ → List Effect
switch_effects old fd =
    Effect.opened fd
    ∷ Effect.synced
    ∷ Effect.notified
    ∷ Effect.joined
    ∷ (if is_negative old then Effect.started ∷ [] else Effect.closed old ∷ Effect.started ∷ [])

module _ {Compressor : Type 0} where
  -- A level above debug is set as debug.
  pub get_log_level-set_log_level :
      (level : ℕ) (l : Logger Compressor)
      → get_log_level (set_log_level level l).1 ≡ min level debug
  unfolding get_log_level set_log_level
  get_log_level-set_log_level level l = ground arith

  -- Whatever a pointer that was never written holds, the first request of a thread goes through it:
  -- the buffer that was made for the thread is not reached.
  pub ask_for_buffer_with_size-first :
      (garbage : Memory) (reads : List ℕ) (nbytes : ℕ) (l : Logger Compressor)
      → ask_for_buffer_with_size garbage reads nbytes BufferPtr.nullptr l ≡ none
  unfolding ask_for_buffer_with_size
  ask_for_buffer_with_size-first garbage reads nbytes l = refl

  -- What the logger is after a switch.
  abbrev pub switched : ℤ → Logger Compressor → Logger Compressor
  switched fd l = record l {
    file_fd = fd;
    bg_thread_status = ThreadStatus.restart;
    joinable = true;
    effects = l.effects ++ switch_effects l.file_fd fd;
  }
