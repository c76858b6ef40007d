-- ===== src/Preprocessor/Tests.antt =====
-- The preprocessor's theorems at two samples (preprocess/preprocessor.cpp).
use pipe_ai_rk3588_industria.Prelude.{
  ℕ, ◌<◌, ◌≡◌, refl, ◌≢◌, ◌↔◌, true, false, Option, none, some, List, [], ◌∷◌, get_or, replicate,
}
use pipe_ai_rk3588_industria.Prelude.Int.{ℤ, pos, negsuc}
use pipe_ai_rk3588_industria.Floats.Fixed.{fixed, fixed-IsIeee}
use pipe_ai_rk3588_industria.Status.{is_ok}
use pipe_ai_rk3588_industria.Types.{RawSample, radar_channels, target_length, cleared_input, at}
use pipe_ai_rk3588_industria.Repair.{sanitize_imu}
use pipe_ai_rk3588_industria.Preprocessor.{PreprocessOptions, run, channel, imu_channel}
use pipe_ai_rk3588_industria.Preprocessor.Result.{cleaned, resampled, run_tensor}

abbrev num : ℕ → Option ℤ
num n = some (pos n)

abbrev options : PreprocessOptions fixed
options = record { sensor_min = num 150 }

abbrev samples : List (RawSample fixed)
samples =
    record { timestamp_ns = 0; radar = replicate 8 (num 200); imu = num 1 }
    ∷ record { timestamp_ns = 1; radar = replicate 8 none; imu = some (negsuc 4) }
    ∷ []

abbrev rows : List (List (Option ℤ))
rows = replicate 8 (replicate 128 (num 5))

run_tensor_example :
    let (status, tensor, report) = run fixed options samples (cleared_input fixed) in
    ((is_ok status ≡ true) ↔ ((samples ≢ []) × (fixed.is_finite options.sensor_min ≡ true)))
    × (is_ok status ≡ false → tensor ≡ cleared_input fixed)
    × (is_ok status ≡ true
        → (t c : ℕ) → t < target_length
        → c < radar_channels
        → at fixed tensor t c
          ≡ some (
              get_or
                (resampled fixed (cleaned fixed options.sensor_min false (channel fixed c samples)))
                t
                none))
    × (is_ok status ≡ true
        → (t : ℕ) → t < target_length
        → at fixed tensor t radar_channels
          ≡ some
              (get_or (resampled fixed (sanitize_imu fixed (imu_channel fixed samples)).0) t none))
run_tensor_example = run_tensor fixed fixed-IsIeee options samples (cleared_input fixed) refl
