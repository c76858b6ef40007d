-- ===== src/App/Replay.antt =====
-- What the running application computes from the file that it replays (runtime/application.cpp).
use mathlib.Core.Path.{subst}
use pipe_ai_rk3588_industria.Prelude.{
  ℕ, ◌<◌, ◌≡◌, refl, sym, ap, ◌∙◌, ◌≢◌, inl, inr, Bool, true, false, Option, none, some, List, [],
  ◌++◌, map, append-nil, arith, ◌==◌, if◌then◌else◌, Bool-cases,
}
use pipe_ai_rk3588_industria.Classifier.{classify}
use pipe_ai_rk3588_industria.Pipeline.Drain.{Reach-drains, rests}
use pipe_ai_rk3588_industria.Pipeline.Progress.{AllWait}
use pipe_ai_rk3588_industria.App.Serving.{
  IsServing, Stays, pending, IsSized, Serves, Serves-IsServing, loop_line, IsLogged,
}
use pipe_ai_rk3588_industria.App.{
  Main, looping, App, stages, Initialized, refused, thrown, serving, initialize, configured, built,
  fed_from, csv_path, replay_main, returned, entering,
}
use pipe_ai_rk3588_industria.Pipeline.Steps.{expected, results}
use pipe_ai_rk3588_industria.Pipeline.Order.{begins, Reach-IsOnCourse}
use pipe_ai_rk3588_industria.Pipeline.{started}
use pipe_ai_rk3588_industria.Queue.{create}
use pipe_ai_rk3588_industria.Engine.{Sdk}
use pipe_ai_rk3588_industria.Sensor.Replay.{replayed}
use pipe_ai_rk3588_industria.Sensor.{Extracted, new_sensor, open_file}
use pipe_ai_rk3588_industria.Startup.{Clock, Journal, say_all}
use pipe_ai_rk3588_industria.Config.{Values, load}
use pipe_ai_rk3588_industria.Status.{Status, is_ok}
use pipe_ai_rk3588_industria.Types.{RawSample, InferenceResult}
use pipe_ai_rk3588_industria.Text.{Bytes, is_empty}
use pipe_ai_rk3588_industria.Floats.{Floats}

module _ (fl : Floats) (clock : Clock) (opens : Bytes → Bool) (stoull : Bytes → Option (ℕ × ℕ))
    (print : fl.F → Bytes) (take_number : Bytes → Extracted ℕ) (take_float : Bytes → Extracted fl.F)
    (sdk : Option (Sdk fl)) where
  abbrev pub expected_of : List (RawSample fl) → List (InferenceResult fl)
  expected_of = expected fl (stages fl sdk)

  -- The samples that the file of the configured path holds.
  abbrev pub file_samples : Values → Option (List Bytes) → List (RawSample fl)
  file_samples values none = []
  file_samples values (some lines) =
      if is_empty (csv_path fl clock opens stoull print values)
      then []
      else replayed fl take_number take_float lines

  -- An application that `initialize` has made: its configuration, the lines of the sensor's file, and
  -- the queue capacity.
  abbrev pub IsInitialized : Bytes → List Bytes → Option (List Bytes) → Journal → App fl → Type 0
  IsInitialized path config_lines contents j a =
      initialize fl clock opens stoull print path (some config_lines) contents j ≡ serving a

  abbrev pub configuration : Bytes → List Bytes → Values
  configuration path config_lines = (load path (some config_lines) []).1

  abbrev Good : Values → Option (List Bytes) → App fl → Type 0
  Good values contents a =
      (capacity : ℕ) × (0 < capacity)
      × IsServing fl clock opens stoull print take_number take_float sdk capacity
          (file_samples values contents) a.journal a

  abbrev GoodResult : Values → Option (List Bytes) → Initialized fl → Type 0
  GoodResult values contents (serving a) = Good values contents a
  GoodResult values contents (refused status j) = Unit {0}
  GoodResult values contents (thrown j) = Unit {0}

  abbrev FeedsAll : List (RawSample fl) → Main fl → Type 0
  FeedsAll all m =
      ([] ++ pending fl clock opens stoull print take_number take_float sdk m ≡ all)
      × IsSized fl clock opens stoull print take_number take_float sdk m
      × Stays fl clock opens stoull print take_number take_float sdk m
      × (loop_line fl clock opens stoull print take_number take_float sdk m ≡ [])

  -- A main thread that starts to feed, over a new pipeline.
  new_app-Good :
      (values : Values) (contents : Option (List Bytes)) (capacity : ℕ) (m : Main fl) (j : Journal)
      → 0 < capacity
      → FeedsAll (file_samples values contents) m
      → Good values contents
          (record { pipeline = started fl capacity; running = true; main = m; journal = j })
  unfolding started say_all
  new_app-Good values contents capacity m j room (whole, size, stay, quiet) = (
    capacity,
    room,
    record {
      accepted = [];
      reaches = begins refl;
      feeding = (whole, size, stay);
      awake = refl;
      logged = ([], [], refl, rw quiet refl);
    },
  )

  no_file :
      (values : Values) (contents : Option (List Bytes))
      → is_empty (csv_path fl clock opens stoull print values) ≡ true
      → [] ≡ file_samples values contents
  no_file values none e = refl
  no_file values (some lines) e = rw e

  opened-FeedsAll :
      (values : Values) (contents : Option (List Bytes))
      → is_empty (csv_path fl clock opens stoull print values) ≡ false
      → FeedsAll
          (file_samples values contents)
          (replay_main fl clock opens stoull print (open_file contents new_sensor))
  unfolding open_file
  opened-FeedsAll values none e = (refl, tt, tt, refl)
  opened-FeedsAll values (some lines) e = rw e (refl, refl, tt, refl)

  fed_from-Good :
      (values : Values) (contents : Option (List Bytes)) (capacity : ℕ) (j : Journal)
      → 0 < capacity
      → Good values contents
          (fed_from fl clock opens stoull print values contents (started fl capacity) j)
  fed_from-Good values contents capacity j room =
      elim (Bool-cases (is_empty (csv_path fl clock opens stoull print values))) [
        | inl e ↦ rw e (
            new_app-Good values contents capacity entering j room
              (no_file values contents e, tt, tt, refl))
        | inr e ↦
            rw e
              (new_app-Good values contents capacity _ _ room (opened-FeedsAll values contents e))
      ]

  built-GoodResult :
      (values : Values) (contents : Option (List Bytes)) (capacity : ℕ) (j : Journal)
      → GoodResult values contents
          (built fl clock opens stoull print values contents (create capacity) j)
  unfolding create
  built-GoodResult values contents capacity j = elim (Bool-cases (capacity == 0)) [
    | inl e ↦ rw e tt
    | inr e ↦ rw e (fed_from-Good values contents capacity j (ground arith))
  ]

  configured-GoodResult :
      (contents : Option (List Bytes)) (r : Status × Values) (j : Journal)
      → GoodResult r.1 contents (configured fl clock opens stoull print contents r j)
  configured-GoodResult contents (status, values) j = elim (Bool-cases (is_ok status)) [
    | inl e ↦ rw e (built-GoodResult values contents _ _)
    | inr e ↦ rw e tt
  ]

  pub initialize-Good :
      (path : Bytes) (config_lines : List Bytes) (contents : Option (List Bytes)) (j : Journal)
      (a : App fl)
      → IsInitialized path config_lines contents j a
      → Good (configuration path config_lines) contents a
  unfolding initialize
  initialize-Good path config_lines contents j a h =
      subst (GoodResult (configuration path config_lines) contents) h
        (configured-GoodResult contents (load path (some config_lines) []) j)

  -- From its start by `initialize` on, in every schedule of the main thread and the three workers: what
  -- the callback has seen is how the results begin that one thread would compute from the samples of
  -- the configured sensor file, up to its first line that is no sample; the log has one message for
  -- each of these results, in order, and the one with which `run` begins, once it has begun, and no
  -- other; once the main thread has fed the file, is in the loop of `run`, and the workers wait, all
  -- the results are there. That loop never ends.
  pub Serves-replays :
      (path : Bytes) (config_lines : List Bytes) (contents : Option (List Bytes)) (j : Journal)
      {start a : App fl}
      → IsInitialized path config_lines contents j start
      → Serves fl clock opens stoull print take_number take_float sdk start a
      → let all = file_samples (configuration path config_lines) contents in
        ((rest : List (InferenceResult fl)) × (a.pipeline.delivered ++ rest ≡ expected_of all))
        × IsLogged fl clock opens stoull print take_number take_float sdk start.journal
            (loop_line fl clock opens stoull print take_number take_float sdk a.main)
            a.pipeline.delivered
            a.journal
        × (a.main ≡ looping
            → AllWait fl (stages fl sdk) a.pipeline
            → a.pipeline.delivered ≡ expected_of all)
        × (a.main ≢ returned)
  Serves-replays path config_lines contents j {start} {a} h s =
      let (capacity, room, good) = initialize-Good path config_lines contents j start h in
      let now =
        Serves-IsServing fl clock opens stoull print take_number take_float sdk capacity _
          start.journal good s in
      let st = stages fl sdk in
      let (whole, size, stay) = now.feeding in
      let still = pending fl clock opens stoull print take_number take_float sdk a.main in
      (
        (
          map (classify fl) (results fl st a.pipeline still),
          (Reach-IsOnCourse fl st capacity now.reaches).1 still ∙ ap expected_of whole,
        ),
        now.logged,
        λ e wait.
            (Reach-drains fl st capacity room now.reaches rests).1 wait
            ∙ ap expected_of (
                sym (append-nil now.accepted)
                ∙ ap
                    (λ m.
                      now.accepted
                      ++ pending fl clock opens stoull print take_number take_float sdk m)
                    (sym e)
                ∙ whole),
        λ e. subst (Stays fl clock opens stoull print take_number take_float sdk) e stay,
      )
