-- ===== src/Bridge/Tests.antt =====
-- The bridge with an SDK that always answers (pipeline/inference_pipeline_bridge.cpp).
use pipe_ai_rk3588_industria.Prelude.{
  ℕ, ◌<◌, ◌≡◌, ◌≢◌, true, false, Option, none, some, List, [], ◌∷◌, length, replicate,
}
use pipe_ai_rk3588_industria.Prelude.Int.{ℤ, pos}
use pipe_ai_rk3588_industria.Floats.Fixed.{fixed, fixed-IsIeee}
use pipe_ai_rk3588_industria.Types.{RawSample, class_count, blank_result}
use pipe_ai_rk3588_industria.Preprocessor.{PreprocessOptions}
use pipe_ai_rk3588_industria.Engine.{Sdk, holds, missing}
use pipe_ai_rk3588_industria.Classifier.Best.{NoneAbove}
use pipe_ai_rk3588_industria.Bridge.{Bridge, new_bridge, Call, initializes, releases, operate, run}
use pipe_ai_rk3588_industria.Bridge.Result.{run_result}

abbrev num : ℕ → Option ℤ
num n = some (pos n)

abbrev sdk : Sdk fixed
sdk = record {
  rknn_init = λ k live contents. some (length contents);
  rknn_query = λ c. some (1, 1);
  rknn_inputs_set = λ c input. true;
  rknn_run = λ c input. true;
  rknn_outputs_get = λ c input n. some (some (num 0 ∷ num 2 ∷ num 1 ∷ num 0 ∷ num 0 ∷ []) ∷ []);
}

abbrev calls : List Call
calls =
    initializes (some []) missing
    ∷ releases
    ∷ initializes none missing
    ∷ initializes (some []) (holds (1 ∷ 2 ∷ []))
    ∷ []

abbrev samples : List (RawSample fixed)
samples = record { timestamp_ns = 4; radar = replicate 8 (num 200); imu = num 1 } ∷ []

abbrev options : PreprocessOptions fixed
options = record { sensor_min = num 150 }

abbrev bridge : Bridge
bridge = operate fixed (some sdk) calls new_bridge

run_result_example :
    let (done, r) = run fixed (some sdk) options samples (blank_result fixed) bridge in
    (done ≡ false → r ≡ blank_result fixed)
    × (done ≡ true
        → (bridge.ready ≡ true)
          × (samples ≢ [])
          × (r.window_id ≡ 0)
          × ((k : ℕ) × (r.class_id ≡ some k)
              × (k < class_count)
              × NoneAbove fixed r.confidence r.probabilities))
run_result_example =
    run_result fixed (some sdk) fixed-IsIeee options samples (blank_result fixed) bridge
