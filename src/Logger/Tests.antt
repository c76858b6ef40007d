-- ===== src/Logger/Tests.antt =====
-- The log at three calls (runtime/logger.cpp).
use pipe_ai_rk3588_industria.Prelude.{◌≡◌, refl, true, List, [], ◌∷◌, ◌++◌}
use pipe_ai_rk3588_industria.Text.{Bytes, codes, same_bytes}
use pipe_ai_rk3588_industria.Logger.{
  log, LogLevel, debug, warn, error, Logger, new_logger, set_file, Entry, line_of, log_all,
}
use pipe_ai_rk3588_industria.Logger.Lines.{lines_with, to_cout, to_cerr, goes_to, log_all-lines}

abbrev entry : LogLevel → Entry
entry level = record { level = level; message = codes "m"; time = codes "t"; thread = codes "1" }

abbrev three : List Entry
three = entry debug ∷ entry error ∷ entry warn ∷ []

abbrev to_a : Logger
to_a = (set_file (λ p. true) (codes "a") (new_logger (λ p. codes "old" ∷ []))).1

-- The call below the level is left out, the error goes to the other stream.
warn_on_cout : (log_all three to_a).cout ≡ line_of (entry warn) ∷ []
unfolding log_all log same_bytes
warn_on_cout = refl

both_in_file :
    (log_all three to_a).contents (codes "a")
    ≡ codes "old" ∷ line_of (entry error) ∷ line_of (entry warn) ∷ []
unfolding log_all log same_bytes
both_in_file = refl

log_all-lines_example :
    ((log_all three to_a).min_level ≡ to_a.min_level)
    × ((log_all three to_a).file ≡ to_a.file)
    × ((log_all three to_a).cout ≡ to_a.cout ++ lines_with (to_cout to_a.min_level) three)
    × ((log_all three to_a).cerr ≡ to_a.cerr ++ lines_with (to_cerr to_a.min_level) three)
    × ((q : Bytes)
        → (log_all three to_a).contents q
          ≡ to_a.contents q ++ lines_with (goes_to to_a.file to_a.min_level q) three)
log_all-lines_example = log_all-lines three to_a
