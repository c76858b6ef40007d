-- ===== src/App/Launch.antt =====
-- What `main` comes to before the sensor's file is fed (app/main.cpp, runtime/application.cpp).
use mathlib.Core.Path.{subst}
use pipe_ai_rk3588_industria.Prelude.{
  ℕ, ◌<◌, ◌≡◌, refl, sym, ap, ◌∙◌, ◌⊎◌, inl, inr, Bool, true, false, Option, List, [], ◌∷◌, ◌++◌,
  arith, ◌==◌, if◌then◌else◌, Bool-cases,
}
use pipe_ai_rk3588_industria.Sensor.{open_file, new_sensor}
use pipe_ai_rk3588_industria.App.{
  App, Launched, exit_failure, crashed, launch, greetings, csv_path, fed_from, built, initialize,
  started_app, feeding, Main, entering, configured, replay_main,
}
use pipe_ai_rk3588_industria.Pipeline.{started, Pipeline}
use pipe_ai_rk3588_industria.Queue.{create}
use pipe_ai_rk3588_industria.Startup.Opening.{say_all-append, shown, opened-shown}
use pipe_ai_rk3588_industria.Startup.{
  Clock, Journal, say_all, pipeline_size, opening, open_log, log_level, to_stderr, start_up,
  config_path, say,
}
use pipe_ai_rk3588_industria.Logger.{info, error}
use pipe_ai_rk3588_industria.Config.{Values, load}
use pipe_ai_rk3588_industria.Status.{Status, is_ok}
use pipe_ai_rk3588_industria.Text.{Bytes, codes, is_empty}
use pipe_ai_rk3588_industria.Floats.{Floats}

module _ (fl : Floats) (clock : Clock) (opens : Bytes → Bool) (stoull : Bytes → Option (ℕ × ℕ))
    (print : fl.F → Bytes) where
  abbrev raw_capacity : Values → ℕ
  raw_capacity values = pipeline_size clock opens stoull (codes "raw_queue_capacity") 1024 values

  -- What is said before the pipeline is made, from the values of the first load and of the second, and
  -- the message on the sensor's file.
  abbrev first_messages : Values → Values → List Bytes
  first_messages first second =
      opening clock opens stoull first ++ greetings fl clock opens stoull print second

  abbrev replay_messages : Values → List Bytes
  replay_messages values =
      if is_empty (csv_path fl clock opens stoull print values)
      then []
      else (codes "csv replay enabled: " ++ csv_path fl clock opens stoull print values) ∷ []

  -- Where the main thread goes on: before its first read, or before `run` when there is no file.
  abbrev fed_main : Values → Option (List Bytes) → Main fl
  fed_main values contents =
      if is_empty (csv_path fl clock opens stoull print values)
      then entering
      else replay_main fl clock opens stoull print (open_file contents new_sensor)

  -- An application that is about to feed, with a log of the first file's level that shows the messages.
  abbrev IsFeeding : Values → Values → Option (List Bytes) → Journal → App fl → Type 0
  IsFeeding first second contents j a =
      let messages = first_messages first second ++ replay_messages second in
      (a.running ≡ true)
      × (a.pipeline ≡ started fl (raw_capacity second))
      × (a.main ≡ fed_main second contents)
      × (a.journal ≡ say_all clock info messages (open_log opens first j))
      × (a.journal.logger.min_level ≡ log_level first)
      × (a.journal.logger.cout ≡ j.logger.cout ++ shown clock (log_level first) j.calls messages)

  -- What follows the second load.
  abbrev pub AgainOutcomes :
      Values → Status × Values → Option (List Bytes) → Journal → Launched fl → Type 0
  AgainOutcomes first (status, second) contents j l =
      let log = open_log opens first j in
      ((is_ok status ≡ false)
        × (l
            ≡ exit_failure (
                say clock error (codes "application init failed: " ++ status.message)
                  (say_all clock info (opening clock opens stoull first) log))))
      ⊎ ((is_ok status ≡ true)
          × (raw_capacity second ≡ 0)
          × (l ≡ crashed (say_all clock info (first_messages first second) log)))
      ⊎ ((is_ok status ≡ true)
          × (0 < raw_capacity second)
          × (a : App fl) × (l ≡ feeding a)
          × IsFeeding first second contents j a)

  abbrev pub Outcomes :
      Status × Values → Status × Values → Option (List Bytes) → Journal → Launched fl → Type 0
  Outcomes (status, first) again contents j l =
      ((is_ok status ≡ false)
        × (l ≡ exit_failure (to_stderr (codes "config error: " ++ status.message) j)))
      ⊎ ((is_ok status ≡ true) × AgainOutcomes first again contents j l)

  said_on :
      (first second : Values) (more : List Bytes) (j : Journal)
      → say_all clock info more (
          say_all clock info
            (greetings fl clock opens stoull print second)
            (say_all clock info (opening clock opens stoull first) j))
        ≡ say_all clock info (first_messages first second ++ more) j
  said_on first second more j =
      ap (say_all clock info more) (
        sym (
          say_all-append clock info (opening clock opens stoull first)
            (greetings fl clock opens stoull print second) j))
      ∙ sym (say_all-append clock info (first_messages first second) more j)

  fed_from-parts :
      (values : Values) (contents : Option (List Bytes)) (p : Pipeline fl) (j : Journal)
      → let a = fed_from fl clock opens stoull print values contents p j in
        (a.running ≡ true)
        × (a.pipeline ≡ p)
        × (a.main ≡ fed_main values contents)
        × (a.journal ≡ say_all clock info (replay_messages values) j)
  unfolding say_all
  fed_from-parts values contents p j =
      elim (Bool-cases (is_empty (csv_path fl clock opens stoull print values))) [
        | inl e ↦ rw e (refl, refl, refl, refl)
        | inr e ↦ rw e (refl, refl, refl, refl)
      ]

  abbrev said_before : Values → Values → Journal → Journal
  said_before first second j =
      say_all clock info (greetings fl clock opens stoull print second)
        (say_all clock info (opening clock opens stoull first) (open_log opens first j))

  fed_from-IsFeeding :
      (first second : Values) (contents : Option (List Bytes)) (j : Journal)
      → IsFeeding first second contents j (
          fed_from fl clock opens stoull print second contents
            (started fl (raw_capacity second))
            (said_before first second j))
  fed_from-IsFeeding first second contents j =
      let (on, same, there, said) =
        fed_from-parts second contents (started fl (raw_capacity second))
          (said_before first second j) in
      let all = said ∙ said_on first second (replay_messages second) (open_log opens first j) in
      let (level, out) =
        opened-shown clock opens first (first_messages first second ++ replay_messages second) j in
      (
        on,
        same,
        there,
        all,
        ap (λ k. k.logger.min_level) all ∙ level,
        ap (λ k. k.logger.cout) all ∙ out,
      )

  built-Outcomes :
      (first : Values) (status : Status) (second : Values) (contents : Option (List Bytes))
      (j : Journal)
      → is_ok status ≡ true
      → AgainOutcomes first
          (status, second)
          contents
          j
          (started_app fl clock opens stoull print (
            built fl clock opens stoull print second contents
              (create (raw_capacity second))
              (said_before first second j)))
  unfolding create
  built-Outcomes first status second contents j ok = elim (Bool-cases (raw_capacity second == 0)) [
    | inl e ↦ rw e (
        inr (
          inl (
            ok,
            ground arith,
            ap crashed (
                sym (
                  say_all-append clock info (opening clock opens stoull first)
                    (greetings fl clock opens stoull print second) (open_log opens first j))),
          )))
    | inr e ↦
        rw e (inr (inr (ok, ground arith, _, refl, fed_from-IsFeeding first second contents j)))
  ]

  again-Outcomes :
      (first : Values) (again : Status × Values) (contents : Option (List Bytes)) (j : Journal)
      → AgainOutcomes first again contents j (
          started_app fl clock opens stoull print (
            configured fl clock opens stoull print contents again
              (say_all clock info (opening clock opens stoull first) (open_log opens first j))))
  again-Outcomes first (status, second) contents j = elim (Bool-cases (is_ok status)) [
    | inl ok ↦
        subst
          (λ x.
            AgainOutcomes first (status, second) contents j
              (started_app fl clock opens stoull print x))
          (rw ok refl) (built-Outcomes first status second contents j ok)
    | inr bad ↦ inl (bad, rw bad refl)
  ]

  -- `main` up to the feed of the sensor's file, which is the end of `initialize`, comes to one of four
  -- ends. When the configuration file does not load, it fails, and writes to the standard error one
  -- line that holds the status' message, and nothing to the log. When it loads, but not a second
  -- time, in `initialize`, it fails as well, behind the opening messages and an error in the log. When
  -- the second load gives the capacity 0, the queue's exception ends it, behind the messages said so
  -- far. Else the application is about to feed, with a new pipeline of that capacity, and the log,
  -- of the level that the first load gave, shows all the messages on the standard output or, when that
  -- level is above `info`, none of them.
  pub launch-Outcomes :
      (argv : List Bytes) (config_lines again_lines contents : Option (List Bytes)) (j : Journal)
      → Outcomes
          (load (config_path argv) config_lines [])
          (load (config_path argv) again_lines [])
          contents
          j
          (launch fl clock opens stoull print argv config_lines again_lines contents j)
  unfolding launch start_up initialize
  launch-Outcomes argv config_lines again_lines contents j =
      elim (Bool-cases (is_ok (load (config_path argv) config_lines []).0)) [
        | inl ok ↦
            inr (ok, rw ok (again-Outcomes _ (load (config_path argv) again_lines []) contents j))
        | inr bad ↦ inl (bad, rw bad refl)
      ]
