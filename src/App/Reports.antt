-- ===== src/App/Reports.antt =====
-- What the running application reports, since no model is ever loaded (runtime/application.cpp,
-- pipeline/pipeline.cpp).
use mathlib.Core.Path.{subst}
use pipe_ai_rk3588_industria.Prelude.{
  ℕ, ◌/◌, ◌≤◌, ◌≡◌, refl, ap, Bool, true, Option, List, [], ◌++◌, arith, length, length-append, All,
}
use pipe_ai_rk3588_industria.App.Replay.{
  IsInitialized, configuration, file_samples, initialize-Good,
}
use pipe_ai_rk3588_industria.App.Serving.{Serves, Serves-IsServing, pending}
use pipe_ai_rk3588_industria.App.{looping, App, stages}
use pipe_ai_rk3588_industria.Pipeline.Unloaded.{Reach-unloaded, IsFirstClass}
use pipe_ai_rk3588_industria.Pipeline.Windows.{Reach-counts, IsNumbered}
use pipe_ai_rk3588_industria.Pipeline.Progress.{AllWait}
use pipe_ai_rk3588_industria.Engine.{Sdk}
use pipe_ai_rk3588_industria.Sensor.{Extracted}
use pipe_ai_rk3588_industria.Startup.{Clock, Journal}
use pipe_ai_rk3588_industria.Types.{target_length}
use pipe_ai_rk3588_industria.Text.{Bytes}
use pipe_ai_rk3588_industria.Floats.{Floats, IsIeee}

module _ (fl : Floats) (clock : Clock) (opens : Bytes → Bool) (stoull : Bytes → Option (ℕ × ℕ))
    (print : fl.F → Bytes) (take_number : Bytes → Extracted ℕ) (take_float : Bytes → Extracted fl.F)
    (sdk : Option (Sdk fl)) where
  module _ (laws : IsIeee fl) (good : fl.is_finite (fl.narrow (fl.of_size 150)) ≡ true) where
    -- If the float type is ordered as IEEE 754 says and the default `sensor_min` is finite: the
    -- application, from its start by `initialize` on and in every schedule, reports at most one result
    -- for each 128 samples of the configured sensor file, and exactly one when the main thread is in
    -- the loop of `run` and the workers wait; the results are numbered 1, 2, 3, ...; and each of them
    -- is the first class, "normal", whatever the samples are, with an SDK or without.
    pub Serves-reports :
        (path : Bytes) (config_lines : List Bytes) (contents : Option (List Bytes)) (j : Journal)
        {start a : App fl}
        → IsInitialized fl clock opens stoull print take_number take_float sdk path config_lines
            contents j start
        → Serves fl clock opens stoull print take_number take_float sdk start a
        → let samples = length (
            file_samples fl clock opens stoull print take_number take_float sdk
              (configuration fl clock opens stoull print take_number take_float sdk path
                config_lines)
              contents) in
          (length a.pipeline.delivered ≤ samples / target_length)
          × (a.main ≡ looping
              → AllWait fl (stages fl sdk) a.pipeline
              → length a.pipeline.delivered ≡ samples / target_length)
          × IsNumbered fl (stages fl sdk) 0 a.pipeline.delivered
          × All (IsFirstClass fl (stages fl sdk)) a.pipeline.delivered
    Serves-reports path config_lines contents j {start} {a} h s =
        let all =
          file_samples fl clock opens stoull print take_number take_float sdk
            (configuration fl clock opens stoull print take_number take_float sdk path config_lines)
            contents in
        let (capacity, room, ready) =
          initialize-Good fl clock opens stoull print take_number take_float sdk path config_lines
            contents j start h in
        let now =
          Serves-IsServing fl clock opens stoull print take_number take_float sdk capacity _
            start.journal ready s in
        let (whole, size, stay) = now.feeding in
        let still = pending fl clock opens stoull print take_number take_float sdk a.main in
        let (most, exact, numbered) =
          Reach-counts fl (stages fl sdk) laws good capacity room now.reaches in
        (
          omega (arith, most, ap length whole, length-append now.accepted still),
          λ e wait.
              let fed =
                subst
                  (λ m.
                    now.accepted ++ pending fl clock opens stoull print take_number take_float sdk m
                    ≡ all)
                  e whole in
              omega (arith, exact wait, ap length fed, length-append now.accepted []),
          numbered,
          Reach-unloaded fl (stages fl sdk) capacity laws.lt_irrefl refl now.reaches,
        )
