-- ===== src/Preprocessor.antt =====
-- The path from raw samples to the model's input tensor: preprocess/preprocessor.cpp.
pub mod Layout
pub mod Result
pub mod Tests
use pipe_ai_rk3588_industria.Prelude.{
  ℕ, zero, suc, ◌+◌, ◌-◌, Bool, false, not, List, [], ◌∷◌, map, leb, if◌then◌else◌, length, set,
  get_or, write_range,
}
use pipe_ai_rk3588_industria.Floats.{Floats, max_f}
use pipe_ai_rk3588_industria.Text.{codes}
use pipe_ai_rk3588_industria.Status.{
  Status, is_ok, success, failure, invalid_argument, preprocess_failed,
}
use pipe_ai_rk3588_industria.Types.{radar_channels, target_length, RawSample, ModelInput, position}
use pipe_ai_rk3588_industria.Repair.{repair_radar_channel, sanitize_imu, RadarRepairStats}
use pipe_ai_rk3588_industria.Savgol.{savgol_7_2_interp}
use pipe_ai_rk3588_industria.Resample.{resample_linear_normalized}

pub record PreprocessReport : Type 0 where
  pub source_samples : ℕ
  pub radar_invalid_values : ℕ
  pub imu_nonfinite_values : ℕ
  pub all_invalid_radar_channels : ℕ
  pub savgol_applied : Bool

module _ (fl : Floats) where
  open fl use {F, quiet_nan, is_finite}

  -- `PreprocessOptions` has this one field.
  pub record PreprocessOptions : Type 0 where
    pub sensor_min : F

  -- Channel `ch` over the samples, as the loop that fills `radar` collects it.
  abbrev pub channel : ℕ → List (RawSample fl) → List F
  channel ch [] = []
  channel ch (s ∷ samples) = get_or s.radar ch quiet_nan ∷ channel ch samples

  abbrev pub imu_channel : List (RawSample fl) → List F
  imu_channel [] = []
  imu_channel (s ∷ samples) = s.imu ∷ imu_channel samples

  -- Channels `ch`, `ch + 1`, ..., as many as the number says.
  abbrev pub channels_from : ℕ → ℕ → List (RawSample fl) → List (List F)
  channels_from ch zero samples = []
  channels_from ch (suc n) samples = channel ch samples ∷ channels_from (ch + 1) n samples

  -- The loop that repairs each channel and adds up the statistics.
  unfoldable pub repair_all :
      List (List F) → F → PreprocessReport → List (List F) × PreprocessReport
  repair_all [] sensor_min report = ([], report)
  repair_all (c ∷ cs) sensor_min report =
      let (repaired, stats) = repair_radar_channel fl c sensor_min in
      let (rest, report') = repair_all cs sensor_min (record report {
        radar_invalid_values = report.radar_invalid_values + stats.invalid_values;
        all_invalid_radar_channels =
            if stats.all_invalid
            then report.all_invalid_radar_channels + 1
            else report.all_invalid_radar_channels;
      }) in
      (repaired ∷ rest, report')

  -- The loop that resamples each channel stops at the first refusal.
  unfoldable pub resample_all : List (List F) → Status × List (List F)
  resample_all [] = (success, [])
  resample_all (c ∷ cs) =
      let (status, out) = resample_linear_normalized fl c target_length [] in
      let (status', rest) = resample_all cs in
      if is_ok status then (status', out ∷ rest) else (status, [])

  -- One round of the loop that writes the tensor, and its rounds `t`, `t + 1`, ....
  unfoldable pub write_step : List (List F) → List F → ℕ → ModelInput fl → ModelInput fl
  write_step radar_out imu_out t output =
      set
        (write_range (λ i. get_or (get_or radar_out (i - position fl t 0) []) t quiet_nan)
          (position fl t 0) radar_channels output)
        (position fl t radar_channels) (get_or imu_out t quiet_nan)

  unfoldable pub write_tensor : List (List F) → List F → ℕ → ℕ → ModelInput fl → ModelInput fl
  write_tensor radar_out imu_out t zero output = output
  write_tensor radar_out imu_out t (suc n) output =
      write_tensor radar_out imu_out (t + 1) n (write_step radar_out imu_out t output)

  -- From the channels, cleaned and smoothed, to the tensor.
  unfoldable pub emit :
      List (List F)
      → List F
      → ModelInput fl
      → PreprocessReport
      → Status × ModelInput fl × PreprocessReport
  emit radar imu output report =
      let (radar_status, radar_out) = resample_all radar in
      let (imu_status, imu_out) = resample_linear_normalized fl imu target_length [] in
      if not (is_ok radar_status)
      then (radar_status, output, report)
      else if not (is_ok imu_status)
      then (imu_status, output, report)
      else (success, write_tensor radar_out imu_out 0 target_length output, report)

  abbrev pub blank_report : ℕ → PreprocessReport
  blank_report n = record {
    source_samples = n;
    radar_invalid_values = 0;
    imu_nonfinite_values = 0;
    all_invalid_radar_channels = 0;
    savgol_applied = false;
  }

  -- The status, `output`, and the local report, which the caller has only after a success.
  unfoldable pub run :
      PreprocessOptions
      → List (RawSample fl)
      → ModelInput fl
      → Status × ModelInput fl × PreprocessReport
  run options [] output =
      (failure preprocess_failed (codes "preprocess input is empty"), output, blank_report 0)
  run options (s ∷ samples) output =
      let n = length (s ∷ samples) in
      let (repaired, repair_report) =
        repair_all (channels_from 0 radar_channels (s ∷ samples)) options.sensor_min
          (blank_report n) in
      let (imu, imu_count) = sanitize_imu fl (imu_channel (s ∷ samples)) in
      let long = leb 7 n in
      let smoothed = if long then map (savgol_7_2_interp fl) repaired else repaired in
      let clamped = map (map (λ v. max_f fl v options.sensor_min)) smoothed in
      if not (is_finite options.sensor_min)
      then (failure invalid_argument (codes "sensor_min must be finite"), output, blank_report n)
      else emit clamped imu output
          (record repair_report { imu_nonfinite_values = imu_count; savgol_applied = long })
