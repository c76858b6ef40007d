-- ===== src/App/Tests.antt =====
-- The application with a sensor file of one sample and a line that is none, up to the loop of `run`.
use pipe_ai_rk3588_industria.Prelude.{
  ℕ, ◌/◌, ◌≤◌, ◌≡◌, refl, ◌≢◌, Bool, true, false, Option, none, some, List, [], ◌∷◌, ◌++◌, length,
  All,
}
use pipe_ai_rk3588_industria.App.Reports.{Serves-reports}
use pipe_ai_rk3588_industria.Pipeline.Unloaded.{IsFirstClass}
use pipe_ai_rk3588_industria.Pipeline.Windows.{IsNumbered}
use pipe_ai_rk3588_industria.App.Launch.{Outcomes, launch-Outcomes}
use pipe_ai_rk3588_industria.Floats.Fixed.{fixed, fixed-IsIeee}
use pipe_ai_rk3588_industria.Text.{Bytes, codes, same_bytes}
use pipe_ai_rk3588_industria.Types.{InferenceResult, target_length}
use pipe_ai_rk3588_industria.Config.{load, load_lines, load_line, split_eq, find, put, Values}
use pipe_ai_rk3588_industria.Logger.{info, new_logger}
use pipe_ai_rk3588_industria.Startup.{Clock, Journal, say_all, say, config_path}
use pipe_ai_rk3588_industria.Queue.{create, emplace_impl}
use pipe_ai_rk3588_industria.Sensor.{open_file, read, read_line, read_radar, CsvSensor}
use pipe_ai_rk3588_industria.Sensor.Tests.{take_number, take_float, first, written, print}
use pipe_ai_rk3588_industria.Pipeline.{submit, started}
use pipe_ai_rk3588_industria.Pipeline.Progress.{AllWait}
use pipe_ai_rk3588_industria.App.{
  App, stages, initialize, serving, main_step, looping, returned, reading, submitting, greetings,
  blank_sample, entering, loop_message, launch,
}
use pipe_ai_rk3588_industria.App.Serving.{begins, feeds, main_turn, IsLogged, loop_line, Serves}
use pipe_ai_rk3588_industria.App.Replay.{file_samples, configuration, expected_of, Serves-replays}

abbrev clock : Clock
clock k = (codes "t", codes "1")

abbrev opens : Bytes → Bool
opens path = true

abbrev stoull : Bytes → Option (ℕ × ℕ)
stoull s = some (4, length s)

abbrev config_lines : List Bytes
config_lines =
    codes "[sensor]" ∷ codes "csv=a.csv" ∷ codes "[pipeline]" ∷ codes "raw_queue_capacity=4" ∷ []

abbrev sensor_lines : List Bytes
sensor_lines = written first ∷ codes "end" ∷ []

abbrev quiet : Journal
quiet = record { logger = new_logger (λ path. []); calls = 0 }

abbrev values : Values
values =
    configuration fixed clock opens stoull print take_number take_float none (codes "c.ini")
      config_lines

abbrev sensor : CsvSensor
sensor = record { opened = true; good = true; lines = sensor_lines }

abbrev start_app : App fixed
start_app = record {
  pipeline = started fixed 4;
  running = true;
  main = reading sensor (blank_sample fixed);
  journal =
      say clock info (codes "csv replay enabled: a.csv")
        (say_all clock info (greetings fixed clock opens stoull print values) quiet);
}

is_initialized :
    initialize fixed clock opens stoull print
      (codes "c.ini")
      (some config_lines)
      (some sensor_lines)
      quiet
    ≡ serving start_app
unfolding initialize load load_lines load_line find put same_bytes create open_file split_eq
is_initialized = refl

-- The sample is read, and submitted.
abbrev read_app : App fixed
read_app = record start_app { main = submitting (record sensor { lines = codes "end" ∷ [] }) first }

first_read :
    main_turn fixed clock opens stoull print take_number take_float none start_app ≡ some read_app
unfolding main_step read read_line read_radar
first_read = refl

abbrev fed_app : App fixed
fed_app = record start_app {
  pipeline = record (unfold started in started fixed 4) {
    raw_queue = record { capacity = 4; items = first ∷ []; closed = false };
  };
  main = reading (record sensor { lines = codes "end" ∷ [] }) first;
}

first_submit :
    main_turn fixed clock opens stoull print take_number take_float none read_app ≡ some fed_app
unfolding main_step submit emplace_impl started
first_submit = refl

-- The next line is no sample, and `run` begins.
abbrev entering_app : App fixed
entering_app = record fed_app { main = entering }

last_read :
    main_turn fixed clock opens stoull print take_number take_float none fed_app ≡ some entering_app
unfolding main_step read read_line read_radar
last_read = refl

abbrev loop_app : App fixed
loop_app = record entering_app {
  main = looping;
  journal = say clock info (loop_message fixed clock opens stoull print) entering_app.journal;
}

first_loop :
    main_turn fixed clock opens stoull print take_number take_float none entering_app
    ≡ some loop_app
unfolding main_step
first_loop = refl

to_loop : Serves fixed clock opens stoull print take_number take_float none start_app loop_app
to_loop = feeds (feeds (feeds (feeds (begins refl) first_read) first_submit) last_read) first_loop

Serves-replays_example :
    let all =
      file_samples fixed clock opens stoull print take_number take_float none values
        (some sensor_lines) in
    let expected = expected_of fixed clock opens stoull print take_number take_float none all in
    ((rest : List (InferenceResult fixed)) × (loop_app.pipeline.delivered ++ rest ≡ expected))
    × IsLogged fixed clock opens stoull print take_number take_float none start_app.journal
        (loop_line fixed clock opens stoull print take_number take_float none loop_app.main)
        loop_app.pipeline.delivered
        loop_app.journal
    × (loop_app.main ≡ looping
        → AllWait fixed (stages fixed none) loop_app.pipeline
        → loop_app.pipeline.delivered ≡ expected)
    × (loop_app.main ≢ returned)
Serves-replays_example =
    Serves-replays fixed clock opens stoull print take_number take_float none (codes "c.ini")
      config_lines (some sensor_lines) quiet is_initialized to_loop

Serves-reports_example :
    let samples = length (
      file_samples fixed clock opens stoull print take_number take_float none values
        (some sensor_lines)) in
    (length loop_app.pipeline.delivered ≤ samples / target_length)
    × (loop_app.main ≡ looping
        → AllWait fixed (stages fixed none) loop_app.pipeline
        → length loop_app.pipeline.delivered ≡ samples / target_length)
    × IsNumbered fixed (stages fixed none) 0 loop_app.pipeline.delivered
    × All (IsFirstClass fixed (stages fixed none)) loop_app.pipeline.delivered
Serves-reports_example =
    Serves-reports fixed clock opens stoull print take_number take_float none fixed-IsIeee refl
      (codes "c.ini") config_lines (some sensor_lines) quiet is_initialized to_loop

abbrev argv : List Bytes
argv = codes "pipeai" ∷ codes "c.ini" ∷ []

-- The file is the same both times.
launch-Outcomes_example :
    Outcomes fixed clock opens stoull print
      (load (config_path argv) (some config_lines) [])
      (load (config_path argv) (some config_lines) [])
      (some sensor_lines)
      quiet
      (launch fixed clock opens stoull print argv
        (some config_lines)
        (some config_lines)
        (some sensor_lines)
        quiet)
launch-Outcomes_example =
    launch-Outcomes fixed clock opens stoull print argv (some config_lines) (some config_lines)
      (some sensor_lines) quiet
