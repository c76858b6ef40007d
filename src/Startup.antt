-- ===== src/Startup.antt =====
-- What the program does before the pipeline runs: app/main.cpp up to the application. The file
-- system, the clock and `std::stoull` are parameters.
pub mod Opening
use pipe_ai_rk3588_industria.Prelude.{
  ℕ, ◌+◌, ◌-◌, ◌/◌, Bool, not, Option, none, some, List, [], ◌∷◌, ◌++◌, if◌then◌else◌,
}
use pipe_ai_rk3588_industria.Text.{Bytes, codes, same_bytes, to_string, is_empty}
use pipe_ai_rk3588_industria.Status.{Status, is_ok}
use pipe_ai_rk3588_industria.Types.{byte_size}
use pipe_ai_rk3588_industria.Config.{Values, load, get_string, get_number}
use pipe_ai_rk3588_industria.Logger.{
  LogLevel, debug, info, warn, error, Logger, set_level, set_file, Entry, log,
}

unfoldable pub parse_level : Bytes → LogLevel
parse_level s =
    if same_bytes s (codes "debug")
    then debug
    else if same_bytes s (codes "warn")
    then warn
    else if same_bytes s (codes "error")
    then error
    else info

abbrev pub config_path : List Bytes → Bytes
config_path (program ∷ path ∷ rest) = path
config_path _ = codes "config/pipeai.ini"

-- The time and the thread of each call of `log`, by its number.
abbrev pub Clock : Type 0
Clock = ℕ → Bytes × Bytes

-- The log, and how many calls there were.
pub record Journal : Type 0 where
  pub logger : Logger
  pub calls : ℕ

abbrev pub entry_at : Clock → ℕ → LogLevel → Bytes → Entry
entry_at clock k level message = record {
  level = level;
  message = message;
  time = (clock k).0;
  thread = (clock k).1;
}

unfoldable pub say : Clock → LogLevel → Bytes → Journal → Journal
say clock level message j = record {
  logger = log (entry_at clock j.calls level message) j.logger;
  calls = j.calls + 1;
}

unfoldable pub say_all : Clock → LogLevel → List Bytes → Journal → Journal
say_all clock level [] j = j
say_all clock level (m ∷ messages) j = say_all clock level messages (say clock level m j)

-- A line that goes to `std::cerr` by no call of `log`.
abbrev pub to_stderr : Bytes → Journal → Journal
to_stderr line j = record j { logger = record j.logger { cerr = j.logger.cerr ++ (line ∷ []) } }

abbrev pub log_level : Values → LogLevel
log_level values = parse_level (get_string (codes "logging.level") (codes "info") values)

abbrev pub log_path : Values → Bytes
log_path values = get_string (codes "logging.file") [] values

abbrev pub opened_log : Bytes → Bool × Logger → Journal → Journal
opened_log path (ok, logger) j =
    if ok
    then record j { logger = logger }
    else to_stderr (codes "warning: cannot open log file: " ++ path) (record j { logger = logger })

-- `opens` tells whether a path can be opened for writing.
unfoldable pub open_log : (Bytes → Bool) → Values → Journal → Journal
open_log opens values j =
    let leveled : Journal = record j { logger = set_level (log_level values) j.logger } in
    if is_empty (log_path values)
    then leveled
    else opened_log (log_path values) (set_file opens (log_path values) leveled.logger) leveled

module _ (clock : Clock) (opens : Bytes → Bool) (stoull : Bytes → Option (ℕ × ℕ)) where
  -- `get_size` of a key of the section `pipeline`.
  abbrev pub pipeline_size : Bytes → ℕ → Values → ℕ
  pipeline_size key fallback values = get_number stoull (codes "pipeline." ++ key) fallback values

  abbrev pub opening : Values → List Bytes
  opening values =
      codes "PipeAI-RK3588 bootstrap OK"
      ∷ (codes "model input contract: float32 [1,128,9], bytes=" ++ to_string byte_size)
      ∷ (codes "window stride="
          ++ to_string (pipeline_size (codes "window_stride") 16 values)
          ++ codes ", raw_queue_capacity="
          ++ to_string (pipeline_size (codes "raw_queue_capacity") 1024 values))
      ∷ []

  abbrev pub loaded : Status × Values → Journal → Option Values × Journal
  loaded (status, values) j =
      if not (is_ok status)
      then (none, to_stderr (codes "config error: " ++ status.message) j)
      else (some values, say_all clock info (opening values) (open_log opens values j))

  -- `none` is EXIT_FAILURE. `contents` are the lines of the configuration file, if it can be opened.
  unfoldable pub start_up : List Bytes → Option (List Bytes) → Journal → Option Values × Journal
  start_up argv contents j = loaded (load (config_path argv) contents []) j
