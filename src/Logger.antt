-- ===== src/Logger.antt =====
-- The log: runtime/logger.cpp. Each member function is what it does under the mutex. The clock, the
-- identity of the thread and whether a path can be opened are parameters.
pub mod Lines
pub mod Tests
use pipe_ai_rk3588_industria.Prelude.{
  ℕ, ◌+◌, Bool, true, false, Option, none, some, List, [], ◌∷◌, ◌++◌, ltb, if◌then◌else◌,
}
use pipe_ai_rk3588_industria.Text.{Bytes, codes, same_bytes}

pub data LogLevel : Type 0 where
  debug : LogLevel
  info : LogLevel
  warn : LogLevel
  error : LogLevel

-- `static_cast<int>(level)`.
abbrev pub rank : LogLevel → ℕ
rank debug = 0
rank info = 1
rank warn = 2
rank error = 3

abbrev pub level_name : LogLevel → Bytes
level_name debug = codes "DEBUG"
level_name info = codes "INFO"
level_name warn = codes "WARN"
level_name error = codes "ERROR"

-- The members, the path that `file_` has open, and what the streams and the files have taken, in lines.
pub record Logger : Type 0 where
  pub min_level : LogLevel
  pub file : Option Bytes
  pub cout : List Bytes
  pub cerr : List Bytes
  pub contents : Bytes → List Bytes

abbrev pub new_logger : (Bytes → List Bytes) → Logger
new_logger contents = record {
  min_level = info;
  file = none;
  cout = [];
  cerr = [];
  contents = contents;
}

abbrev pub set_level : LogLevel → Logger → Logger
set_level level l = record l { min_level = level }

-- The file that was open is closed in any case; the new one is opened to append.
abbrev pub set_file : (Bytes → Bool) → Bytes → Logger → Bool × Logger
set_file opens path l =
    if opens path then (true, record l { file = some path }) else (false, record l { file = none })

abbrev pub clear_file : Logger → Logger
clear_file l = record l { file = none }

-- A call of `log`: with `now_string()` and the thread's id at the time.
pub record Entry : Type 0 where
  pub level : LogLevel
  pub message : Bytes
  pub time : Bytes
  pub thread : Bytes

abbrev pub line_of : Entry → Bytes
line_of e =
    e.time
    ++ codes " ["
    ++ level_name e.level
    ++ codes "]"
    ++ codes " [tid="
    ++ e.thread
    ++ codes "] "
    ++ e.message

abbrev pub is_error : LogLevel → Bool
is_error error = true
is_error _ = false

abbrev pub append_at : Bytes → Bytes → (Bytes → List Bytes) → Bytes → List Bytes
append_at path line contents q = if same_bytes path q then contents q ++ (line ∷ []) else contents q

abbrev pub to_console : Bool → Bytes → Logger → Logger
to_console true line l = record l { cerr = l.cerr ++ (line ∷ []) }
to_console false line l = record l { cout = l.cout ++ (line ∷ []) }

abbrev pub to_file : Bytes → Option Bytes → Logger → Logger
to_file line none l = l
to_file line (some path) l = record l { contents = append_at path line l.contents }

unfoldable pub log : Entry → Logger → Logger
log e l =
    if ltb (rank e.level) (rank l.min_level)
    then l
    else to_file (line_of e) l.file (to_console (is_error e.level) (line_of e) l)

-- Calls one after the other.
unfoldable pub log_all : List Entry → Logger → Logger
log_all [] l = l
log_all (e ∷ entries) l = log_all entries (log e l)
