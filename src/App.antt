-- ===== src/App.antt =====
-- The running application: runtime/application.cpp, called by app/main.cpp. The main thread feeds the
-- file that the sensor replays to the pipeline, while the pipeline's threads run, and then sleeps in a
-- loop. `Status::ok()` and `Status::error(...)`, which include/pipeai/error.hpp does not declare, are
-- read as success, and as the failure of a start that fails, which a new pipeline's does not.
pub mod Growth
pub mod Serving
pub mod Replay
pub mod Launch
pub mod Reports
pub mod Tests
use pipe_ai_rk3588_industria.Prelude.{
  ℕ, ◌+◌, ◌-◌, ◌/◌, Bool, true, not, ◌&&◌, Option, none, some, List, [], ◌∷◌, ◌++◌, map,
  if◌then◌else◌, length, drop, replicate,
}
use pipe_ai_rk3588_industria.Floats.{Floats}
use pipe_ai_rk3588_industria.Text.{Bytes, codes, to_string, is_empty}
use pipe_ai_rk3588_industria.Status.{Status, is_ok}
use pipe_ai_rk3588_industria.Types.{RawSample, InferenceResult, radar_channels}
use pipe_ai_rk3588_industria.Config.{Values, load, get_string}
use pipe_ai_rk3588_industria.Logger.{info, Logger, Entry, log_all, error}
use pipe_ai_rk3588_industria.Startup.{
  Clock, Journal, say, say_all, pipeline_size, start_up, config_path,
}
use pipe_ai_rk3588_industria.Queue.{Queue}
use pipe_ai_rk3588_industria.Queue
use pipe_ai_rk3588_industria.Sensor.{Extracted, CsvSensor, new_sensor, open_file, read}
use pipe_ai_rk3588_industria.Engine.{Sdk, new_engine}
use pipe_ai_rk3588_industria.Pipeline.{Stages, Pipeline, submit, started}
use pipe_ai_rk3588_industria.Pipeline.Progress.{Turn, turn}

module _ (fl : Floats) where
  -- Where the main thread stands: before a read of the sensor, before the `submit` of a sample that
  -- it has read, before the call of `run`, at the head of its loop, or behind it.
  pub data Main : Type 0 where
    reading : CsvSensor → RawSample fl → Main
    submitting : CsvSensor → RawSample fl → Main
    entering : Main
    looping : Main
    returned : Main

  pub record App : Type 0 where
    pub pipeline : Pipeline fl
    pub running : Bool
    pub main : Main
    pub journal : Journal

  -- A pipeline is made with the default options and an engine that has no model.
  abbrev pub stages : Option (Sdk fl) → Stages fl
  stages sdk = record {
    options = record { sensor_min = fl.narrow (fl.of_size 150) };
    sdk = sdk;
    engine = new_engine;
  }

  abbrev pub blank_sample : RawSample fl
  blank_sample = record {
    timestamp_ns = 0;
    radar = replicate radar_channels fl.zero_f;
    imu = fl.zero_f;
  }

-- What `initialize` ends with: the status of the configuration file, an exception, or the application.
pub data Initialized (fl : Floats) : Type 0 where
  refused : Status → Journal → Initialized fl
  thrown : Journal → Initialized fl
  serving : App fl → Initialized fl

-- What `main` comes to: EXIT_FAILURE, an exception, or an application in whose `initialize` the feed of
-- the sensor's file, the last thing there, begins.
pub data Launched (fl : Floats) : Type 0 where
  exit_failure : Journal → Launched fl
  crashed : Journal → Launched fl
  feeding : App fl → Launched fl

-- `print` is `std::to_string` of a `float`.
module _ (fl : Floats) (clock : Clock) (opens : Bytes → Bool) (stoull : Bytes → Option (ℕ × ℕ))
    (print : fl.F → Bytes) where
  abbrev pub greetings : Values → List Bytes
  greetings values =
      codes "Application initialize"
      ∷ (codes "model=" ++ get_string (codes "model.path") (codes "models/pipe_model.rknn") values)
      ∷ (codes "window="
          ++ to_string (pipeline_size clock opens stoull (codes "window") 128 values))
      ∷ []

  abbrev pub class_text : Option ℕ → Bytes
  class_text none = codes "-1"
  class_text (some k) = to_string k

  abbrev pub result_message : InferenceResult fl → Bytes
  result_message r =
      codes "result class=" ++ class_text r.class_id ++ codes " confidence=" ++ print r.confidence

  abbrev pub loop_message : Bytes
  loop_message = codes "PipeAI runtime loop started"

  abbrev pub replay_main : Bool × CsvSensor → Main fl
  replay_main (good, sensor) = if good then reading sensor (blank_sample fl) else entering

  abbrev pub csv_path : Values → Bytes
  csv_path values = get_string (codes "sensor.csv") [] values

  -- From the feed of the file on; `contents` are the lines of the file that the key names.
  abbrev pub fed_from : Values → Option (List Bytes) → Pipeline fl → Journal → App fl
  fed_from values contents p j =
      if is_empty (csv_path values)
      then record { pipeline = p; running = true; main = entering; journal = j }
      else record {
        pipeline = p;
        running = true;
        main = replay_main (open_file contents new_sensor);
        journal = say clock info (codes "csv replay enabled: " ++ csv_path values) j;
      }

  -- `none` is the exception of a queue with no capacity.
  abbrev pub built :
      Values → Option (List Bytes) → Option (Queue (RawSample fl)) → Journal → Initialized fl
  built values contents none j = thrown j
  built values contents (some q) j = serving (fed_from values contents (started fl q.capacity) j)

  abbrev pub configured : Option (List Bytes) → Status × Values → Journal → Initialized fl
  configured contents (status, values) j =
      if not (is_ok status)
      then refused status j
      else built values contents
          (Queue.create (pipeline_size clock opens stoull (codes "raw_queue_capacity") 1024 values))
          (say_all clock info (greetings values) j)

  -- Up to the feed of the sensor's file, whose reads and submissions are steps of `main_step`.
  unfoldable pub initialize :
      Bytes → Option (List Bytes) → Option (List Bytes) → Journal → Initialized fl
  initialize path config_lines contents j = configured contents (load path config_lines []) j

  abbrev pub started_app : Initialized fl → Launched fl
  started_app (refused status j) =
      exit_failure (say clock error (codes "application init failed: " ++ status.message) j)
  started_app (thrown j) = crashed j
  started_app (serving a) = feeding a

  -- `app.initialize(config_path)` in `main`, which opens the configuration again; `again_lines` is what
  -- it then finds there.
  abbrev pub after_start :
      Bytes → Option (List Bytes) → Option (List Bytes) → Option Values × Journal → Launched fl
  after_start path again_lines contents (none, j) = exit_failure j
  after_start path again_lines contents (some values, j) =
      started_app (initialize path again_lines contents j)

  -- `main` up to the feed of the sensor's file; the steps of `main_step` are what comes then.
  unfoldable pub launch :
      List Bytes
      → Option (List Bytes)
      → Option (List Bytes)
      → Option (List Bytes)
      → Journal
      → Launched fl
  launch argv config_lines again_lines contents j =
      after_start (config_path argv) again_lines contents
        (start_up clock opens stoull argv config_lines j)

  module _ (take_number : Bytes → Extracted ℕ) (take_float : Bytes → Extracted fl.F) where
    -- `sensor.read(sample) && running_`.
    abbrev pub after_read : App fl → Bool × RawSample fl × CsvSensor → App fl
    after_read a (ok, sample, sensor) = record a {
      main = if ok && a.running then submitting sensor sample else entering;
    }

    abbrev pub after_submit :
        App fl → CsvSensor → RawSample fl → Option (Bool × Pipeline fl) → Option (App fl)
    after_submit a sensor sample none = none
    after_submit a sensor sample (some (done, p)) =
        some (record a { pipeline = p; main = reading sensor sample })

    -- The next step of the main thread; `none` while it waits in `submit`, and when `run` has returned.
    unfoldable pub main_step : Main fl → App fl → Option (App fl)
    main_step (reading sensor sample) a =
        some (after_read a (read fl take_number take_float sensor sample))
    main_step (submitting sensor sample) a =
        after_submit a sensor sample (submit fl sample a.pipeline)
    main_step entering a =
        some (record a { main = looping; journal = say clock info loop_message a.journal })
    main_step looping a = some (record a { main = if a.running then looping else returned })
    main_step returned a = none

  module _ (sdk : Option (Sdk fl)) where
    -- The callback logs each result that it is called with.
    abbrev pub with_pipeline : App fl → Option (Pipeline fl) → Option (App fl)
    with_pipeline a none = none
    with_pipeline a (some p) = some (record a {
      pipeline = p;
      journal =
          say_all clock info (map result_message (drop (length a.pipeline.delivered) p.delivered))
            a.journal;
    })

    unfoldable pub worker_step : Turn → App fl → Option (App fl)
    worker_step t a = with_pipeline a (turn fl (stages fl sdk) t a.pipeline)
