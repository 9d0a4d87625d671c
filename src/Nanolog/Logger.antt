-- ===== src/Nanolog/Logger.antt =====
-- nanolog/include/Logger.hpp and Logger.cpp, class `Logger` without its IO thread: the level, the
-- registration of log statements, the buffer of a thread, and the change of the log file; with the
-- structures of LoggerInfo.hpp and LoggerConfig.hpp that they use.
pub mod Entities
pub mod Calls
mod Tests
use my_practise.Base.{
  ℕ, zero, suc, ◌+◌, ◌-◌, ◌%◌, ◌^◌, Bool, true, false, not, ◌||◌, ◌&&◌, List, [], ◌∷◌, ◌++◌, Option,
  none, some, ltb, leb, ◌==◌, if◌then◌else◌, length, get_elem?, set_elem, Memory, ℤ, pos, negsuc,
  equal_ℤ, is_negative, to_int32,
}
use my_practise.Nanolog.LoggerBuffer.{
  LoggerBuffer, Alloc, make, allocate_buffer_with_size, commit_buffer_with_size,
}
use my_practise.Nanolog.Format.{ParamType}

-- `enum LogLevel`: a value is any number of the 3 bits that its enumerators need.
abbrev pub silent : ℕ
silent = 0

abbrev pub debug : ℕ
debug = 4

abbrev pub log_type_num : ℕ
log_type_num = 5

-- `loggerIdUnsigned`
abbrev pub logger_id_unsigned : ℤ
logger_id_unsigned = negsuc 0

-- `Compressor` is the type of the function pointers `CompressionFunc`; strings are their bytes.
pub record LoggerInfo (Compressor : Type 0) : Type 0 where
  pub file_name : List ℕ
  pub line_num : ℕ
  pub serverity : ℕ
  pub format_string : List ℕ
  pub num_params : ℤ
  pub num_nibbles : ℤ
  pub param_types : List ParamType
  pub compressor : Compressor

pub data ThreadStatus : Type 0 where
  restart running interruptible stopping : ThreadStatus

-- What `set_log_file_internal` does outside of the memory, in order.
pub data Effect : Type 0 where
  opened : ℤ → Effect
  synced : Effect
  notified : Effect
  joined : Effect
  closed : ℤ → Effect
  started : Effect

pub record Logger (Compressor : Type 0) : Type 0 where
  pub allocated_buffer_times : ℕ  -- uint32_t
  pub logger_info_vector : List (LoggerInfo Compressor)
  pub thread_logger_buffer_ptrs : List LoggerBuffer
  pub cur_log_level : ℕ
  pub bg_thread_status : ThreadStatus
  pub joinable : Bool
  pub file_fd : ℤ
  pub core_id : ℤ
  pub effects : List Effect

-- A `LoggerBuffer *`: null, never written, or the buffer at an index of the vector.
pub data BufferPtr : Type 0 where
  nullptr indeterminate : BufferPtr
  owned : ℕ → BufferPtr

-- What the system says of a path: whether it exists, whether it can be read and written, and what
-- `open` returns.
pub record LogFile : Type 0 where
  pub exists : Bool
  pub read_write : Bool
  pub open_result : ℤ

-- `std::clamp`
abbrev pub clamp : ℕ → ℕ → ℕ → ℕ
clamp v lo hi = if ltb v lo then lo else if ltb hi v then hi else v

module _ {Compressor : Type 0} where
  -- The constructor, with what `open` returns for the default file. The object is static, so that
  -- the level starts at 0.
  unfoldable pub make_logger : ℤ → Logger Compressor
  make_logger fd = record {
    allocated_buffer_times = 0;
    logger_info_vector = [];
    thread_logger_buffer_ptrs = [];
    cur_log_level = 0;
    bg_thread_status = ThreadStatus.restart;
    joinable = true;
    file_fd = fd;
    core_id = negsuc 0;
    effects = Effect.started ∷ Effect.opened fd ∷ [];
  }

  unfoldable pub set_log_level_internal : ℕ → Logger Compressor → Bool × Logger Compressor
  set_log_level_internal level l = (true, record l { cur_log_level = level })

  unfoldable pub set_log_level : ℕ → Logger Compressor → Bool × Logger Compressor
  unfolding set_log_level_internal
  set_log_level level l = set_log_level_internal (clamp level silent (log_type_num - 1)) l

  unfoldable pub get_log_level : Logger Compressor → ℕ
  get_log_level l = l.cur_log_level

  -- The id that a log statement keeps, and the logger behind its registration.
  unfoldable pub register_new_logger_entity :
      ℤ → LoggerInfo Compressor → Logger Compressor → ℤ × Logger Compressor
  register_new_logger_entity id info l = if not (equal_ℤ id logger_id_unsigned) then (id, l) else (
    to_int32 (length l.logger_info_vector),
    record l { logger_info_vector = l.logger_info_vector ++ info ∷ [] },
  )

  abbrev pub emit : Effect → Logger Compressor → Logger Compressor
  emit e l = record l { effects = l.effects ++ e ∷ [] }

  -- `allocate_logger_buffer`: the local variable of the inner block hides the one that the thread's
  -- pointer takes its value from. `none` is the failed assert.
  unfoldable pub allocate_logger_buffer :
      Memory → BufferPtr → Logger Compressor → Option (BufferPtr × Logger Compressor)
  allocate_logger_buffer garbage BufferPtr.nullptr l =
      let id = l.allocated_buffer_times in
      some (
        BufferPtr.indeterminate,
        record l {
          allocated_buffer_times = (id + 1) % 2 ^ 32;
          thread_logger_buffer_ptrs = l.thread_logger_buffer_ptrs ++ make garbage id ∷ [];
        },
      )
  allocate_logger_buffer garbage _ l = none

  -- `mThreadLoggerBufferPtr->allocate_buffer_with_size(nbytes)`; none is undefined behaviour.
  unfoldable pub allocate_through :
      List ℕ → ℕ → BufferPtr → Logger Compressor → Option (Alloc × Logger Compressor)
  allocate_through reads nbytes (BufferPtr.owned i) l =
      elim (get_elem? l.thread_logger_buffer_ptrs i) [
        | none ↦ none
        | some b ↦
            let (a, b') = allocate_buffer_with_size reads nbytes b in
            some (
              a,
              record l { thread_logger_buffer_ptrs = set_elem l.thread_logger_buffer_ptrs i b' },
            )
      ]
  allocate_through reads nbytes _ l = none

  unfoldable pub ask_for_buffer_with_size :
      Memory
      → List ℕ
      → ℕ
      → BufferPtr
      → Logger Compressor
      → Option (Alloc × BufferPtr × Logger Compressor)
  unfolding allocate_logger_buffer allocate_through
  ask_for_buffer_with_size garbage reads nbytes BufferPtr.nullptr l =
      elim (allocate_logger_buffer garbage BufferPtr.nullptr l) [
        | none ↦ none
        | some (ptr, l') ↦ elim (allocate_through reads nbytes ptr l') [
          | none ↦ none
          | some (a, l'') ↦ some (a, ptr, l'')
        ]
      ]
  ask_for_buffer_with_size garbage reads nbytes ptr l = elim (allocate_through reads nbytes ptr l) [
    | none ↦ none
    | some (a, l') ↦ some (a, ptr, l')
  ]

  -- `set_log_file_internal` behind its tests: the old records go to the old file, the thread is stopped and a new
  -- one is started.
  unfoldable pub restart_with : ℤ → Logger Compressor → Logger Compressor
  restart_with fd l =
      let stopped =
        emit Effect.notified
          (record (emit Effect.synced l) { bg_thread_status = ThreadStatus.stopping }) in
      let joined =
        if stopped.joinable
        then record (emit Effect.joined stopped) { joinable = false }
        else stopped in
      let restarted = record joined { bg_thread_status = ThreadStatus.restart } in
      let closed =
        if is_negative restarted.file_fd
        then restarted
        else emit (Effect.closed restarted.file_fd) restarted in
      emit Effect.started (record closed { file_fd = fd; joinable = true })

  unfoldable pub set_log_file_internal : LogFile → Logger Compressor → Bool × Logger Compressor
  unfolding restart_with
  set_log_file_internal file l =
      let opened = emit (Effect.opened file.open_result) l in
      if not (not file.exists || file.read_write)
      then (false, l)
      else if is_negative file.open_result
      then (false, opened)
      else (true, restart_with file.open_result opened)
