-- ===== src/Startup/Opening.antt =====
-- What the messages of a start write (app/main.cpp, runtime/logger.cpp).
use pipe_ai_rk3588_industria.Prelude.{
  ℕ, ◌+◌, ◌≡◌, refl, ap, ◌∙◌, inl, inr, Bool, List, [], ◌∷◌, ◌++◌, map, ltb, if◌then◌else◌,
  Bool-cases,
}
use pipe_ai_rk3588_industria.Config.{Values}
use pipe_ai_rk3588_industria.Text.{Bytes, is_empty}
use pipe_ai_rk3588_industria.Logger.Lines.{lines_with, to_cout, log_all-lines}
use pipe_ai_rk3588_industria.Logger.{LogLevel, info, rank, Entry, line_of, log_all}
use pipe_ai_rk3588_industria.Startup.{
  Clock, Journal, entry_at, say, say_all, open_log, log_level, log_path,
}

-- The calls of `log` for a list of messages, from the call with number `k` on.
abbrev pub entries_of : Clock → ℕ → LogLevel → List Bytes → List Entry
entries_of clock k level [] = []
entries_of clock k level (m ∷ messages) =
    entry_at clock k level m ∷ entries_of clock (k + 1) level messages

pub say_all-append :
    (clock : Clock) (level : LogLevel) (xs ys : List Bytes) (j : Journal)
    → say_all clock level (xs ++ ys) j ≡ say_all clock level ys (say_all clock level xs j)
unfolding say_all
say_all-append clock level [] ys j = refl
say_all-append clock level (x ∷ xs) ys j = say_all-append clock level xs ys (say clock level x j)

say_all-log_all :
    (clock : Clock) (level : LogLevel) (messages : List Bytes) (j : Journal)
    → (say_all clock level messages j).logger
      ≡ log_all (entries_of clock j.calls level messages) j.logger
unfolding say_all say log_all
say_all-log_all clock level [] j = refl
say_all-log_all clock level (m ∷ messages) j =
    say_all-log_all clock level messages (say clock level m j)

info_lines :
    (clock : Clock) (low : LogLevel) (k : ℕ) (messages : List Bytes)
    → lines_with (to_cout low) (entries_of clock k info messages)
      ≡ (if ltb (rank info) (rank low) then [] else map line_of (entries_of clock k info messages))
info_lines clock low k [] = elim (Bool-cases (ltb (rank info) (rank low))) [
  | inl e ↦ rw e
  | inr e ↦ rw e
]
info_lines clock low k (m ∷ messages) = elim (Bool-cases (ltb (rank info) (rank low))) [
  | inl e ↦ rw (info_lines clock low (k + 1) messages, e)
  | inr e ↦ rw (info_lines clock low (k + 1) messages, e)
]

-- The lines that messages of level `info` give on a log with that level.
abbrev pub shown : Clock → LogLevel → ℕ → List Bytes → List Bytes
shown clock low k messages =
    if ltb (rank info) (rank low) then [] else map line_of (entries_of clock k info messages)

say_all-cout :
    (clock : Clock) (messages : List Bytes) (j : Journal)
    → (say_all clock info messages j).logger.cout
      ≡ j.logger.cout ++ shown clock j.logger.min_level j.calls messages
say_all-cout clock messages j =
    let (level, file, out, err, files) =
      log_all-lines (entries_of clock j.calls info messages) j.logger in
    ap (λ l. l.cout) (say_all-log_all clock info messages j)
    ∙ out
    ∙ ap (λ xs. j.logger.cout ++ xs) (info_lines clock j.logger.min_level j.calls messages)

say_all-min_level :
    (clock : Clock) (messages : List Bytes) (j : Journal)
    → (say_all clock info messages j).logger.min_level ≡ j.logger.min_level
say_all-min_level clock messages j =
    ap (λ l. l.min_level) (say_all-log_all clock info messages j)
    ∙ (log_all-lines (entries_of clock j.calls info messages) j.logger).0

open_log_lem :
    (opens : Bytes → Bool) (values : Values) (j : Journal)
    → ((open_log opens values j).logger.min_level ≡ log_level values)
      × ((open_log opens values j).logger.cout ≡ j.logger.cout)
      × ((open_log opens values j).calls ≡ j.calls)
unfolding open_log
open_log_lem opens values j = elim (Bool-cases (is_empty (log_path values))) [
  | inl e ↦ rw e (refl, refl, refl)
  | inr e ↦ elim (Bool-cases (opens (log_path values))) [
    | inl o ↦ rw (e, o) (refl, refl, refl)
    | inr o ↦ rw (e, o) (refl, refl, refl)
  ]
]

-- What the log shows on the standard output after it was opened and the messages were said.
pub opened-shown :
    (clock : Clock) (opens : Bytes → Bool) (values : Values) (messages : List Bytes) (j : Journal)
    → ((say_all clock info messages (open_log opens values j)).logger.min_level ≡ log_level values)
      × ((say_all clock info messages (open_log opens values j)).logger.cout
          ≡ j.logger.cout ++ shown clock (log_level values) j.calls messages)
opened-shown clock opens values messages j =
    let (level, out, calls) = open_log_lem opens values j in
    (
      say_all-min_level clock messages (open_log opens values j) ∙ level,
      say_all-cout clock messages (open_log opens values j) ∙ rw (level, out, calls),
    )
