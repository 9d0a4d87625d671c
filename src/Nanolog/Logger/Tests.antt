-- ===== src/Nanolog/Logger/Tests.antt =====
-- Runs of the logger on small inputs.
use my_practise.Base.{ℕ, ◌≡◌, refl, true, List, [], ◌∷◌, some, pos, arith}
use my_practise.Nanolog.Logger.{
  LoggerInfo, Logger, LogFile, Effect, make_logger, logger_id_unsigned, set_log_file_internal,
  set_log_level, get_log_level, silent,
}
use my_practise.Nanolog.Logger.Entities.{at_id, register_all, register_all-first_info}

abbrev info : ℕ → LoggerInfo ℕ
info line = record {
  file_name = [];
  line_num = line;
  serverity = silent;
  format_string = [];
  num_params = pos 0;
  num_nibbles = pos 0;
  param_types = [];
  compressor = line;
}

-- Statement 7 registers twice.
abbrev calls : List (ℕ × LoggerInfo ℕ)
calls = (7, info 10) ∷ (5, info 20) ∷ (7, info 30) ∷ []

register_all-first_info_example :
    at_id
      ((register_all calls (λ s. logger_id_unsigned) (make_logger (pos 3))).0 7)
      (register_all calls (λ s. logger_id_unsigned) (make_logger (pos 3))).1.logger_info_vector
    ≡ some (info 10)
register_all-first_info_example = register_all-first_info calls (pos 3) 7 (omega arith)

abbrev fresh : Logger ℕ
fresh = record (make_logger (pos 3)) { joinable = true }

abbrev writable : LogFile
writable = record { exists = true; read_write = true; open_result = pos 4 }

set_log_level-high : get_log_level (set_log_level 5 fresh).1 ≡ 4
unfolding set_log_level get_log_level
set_log_level-high = refl

set_log_file-writable :
    (set_log_file_internal writable fresh).1.effects
    ≡ Effect.started
      ∷ Effect.opened (pos 3)
      ∷ Effect.opened (pos 4)
      ∷ Effect.synced
      ∷ Effect.notified
      ∷ Effect.joined
      ∷ Effect.closed (pos 3)
      ∷ Effect.started
      ∷ []
unfolding set_log_file_internal make_logger
set_log_file-writable = refl
