-- ===== src/Bridge.antt =====
-- One window from samples to class in one call: pipeline/inference_pipeline_bridge.cpp.
pub mod Result
pub mod Tests
use pipe_ai_rk3588_industria.Prelude.{
  Bool, true, false, not, Option, none, some, List, [], ◌∷◌, ltb, if◌then◌else◌, length, take,
}
use pipe_ai_rk3588_industria.Floats.{Floats}
use pipe_ai_rk3588_industria.Text.{Bytes}
use pipe_ai_rk3588_industria.Status.{is_ok}
use pipe_ai_rk3588_industria.Types.{RawSample, InferenceResult, class_count, cleared_input}
use pipe_ai_rk3588_industria.Preprocessor.{PreprocessOptions}
use pipe_ai_rk3588_industria.Preprocessor
use pipe_ai_rk3588_industria.Engine.{Engine, Sdk, ModelFile, new_engine, load, infer}
use pipe_ai_rk3588_industria.Engine
use pipe_ai_rk3588_industria.Classifier.{classify}

-- The preprocessor keeps no state but its options, which the operations take as an argument.
pub record Bridge : Type 0 where
  pub engine : Engine
  pub ready : Bool

abbrev pub new_bridge : Bridge
new_bridge = record { engine = new_engine; ready = false }

pub data Call : Type 0 where
  initializes : Option Bytes → ModelFile → Call
  releases : Call

module _ (fl : Floats) (sdk : Option (Sdk fl)) where
  -- The result, and the bridge after the call; no path is `nullptr`.
  unfoldable pub initialize : Option Bytes → ModelFile → Bridge → Bool × Bridge
  unfolding load
  initialize none file b = (false, b)
  initialize (some model) file b =
      let (status, engine) = load fl sdk model file b.engine in
      (is_ok status, record { engine = engine; ready = is_ok status })

  unfoldable pub release : Bridge → Bridge
  release b = record { engine = Engine.close fl sdk b.engine; ready = false }

  abbrev pub last_sample : RawSample fl → List (RawSample fl) → RawSample fl
  last_sample s [] = s
  last_sample s (t ∷ samples) = last_sample t samples

  abbrev pub stamped : List (RawSample fl) → InferenceResult fl → InferenceResult fl
  stamped [] r = r
  stamped (s ∷ samples) r = record r {
    window_start_ns = s.timestamp_ns;
    window_end_ns = (last_sample s samples).timestamp_ns;
  }

  -- The returned flag, and `result` after the call.
  unfoldable pub run :
      PreprocessOptions fl
      → List (RawSample fl)
      → InferenceResult fl
      → Bridge
      → Bool × InferenceResult fl
  run options samples result b =
      let (status, input, report) = Preprocessor.run fl options samples (cleared_input fl) in
      let (infer_status, logits) = infer fl sdk b.engine input [] in
      if not b.ready
      then (false, result)
      else if not (is_ok status)
      then (false, result)
      else if not (is_ok infer_status)
      then (false, result)
      else if ltb (length logits) class_count
      then (false, result)
      else (
        true,
        stamped samples (classify fl (record result { logits = take class_count logits })),
      )

  unfoldable pub operate : List Call → Bridge → Bridge
  unfolding initialize release
  operate [] b = b
  operate (initializes model file ∷ calls) b = operate calls (initialize model file b).1
  operate (releases ∷ calls) b = operate calls (release b)
