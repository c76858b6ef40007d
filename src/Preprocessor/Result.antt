-- ===== src/Preprocessor/Result.antt =====
-- What a run of the preprocessor returns (preprocess/preprocessor.cpp).
use pipe_ai_rk3588_industria.Prelude.{
  ℕ, zero, suc, ◌+◌, ◌<◌, ◌≡◌, refl, ap, ◌∙◌, ◌≢◌, ◌↔◌, inl, inr, Bool, true, false, some, List, [],
  ◌∷◌, map, arith, ltb, leb, ◌==◌, if◌then◌else◌, lt→ltb, Bool-cases, length, length-set, get_or,
  length-map, length-write_range,
}
use pipe_ai_rk3588_industria.Floats.{Floats, IsIeee, max_f}
use pipe_ai_rk3588_industria.Status.{is_ok, success}
use pipe_ai_rk3588_industria.Types.{
  radar_channels, target_length, element_count, RawSample, ModelInput, at,
}
use pipe_ai_rk3588_industria.Repair.{repair_radar_channel, sanitize_imu}
use pipe_ai_rk3588_industria.Repair.Reference.{repair_keeps_valid}
use pipe_ai_rk3588_industria.Savgol.{savgol_7_2_interp, smooth}
use pipe_ai_rk3588_industria.Resample.{resample_linear_normalized}
use pipe_ai_rk3588_industria.Preprocessor.{
  PreprocessOptions, PreprocessReport, channel, imu_channel, channels_from, repair_all,
  resample_all, emit, run, blank_report,
}
use pipe_ai_rk3588_industria.Preprocessor.Layout.{at-write_tensor}

module _ (fl : Floats) where
  open fl use {F, quiet_nan, is_finite}

  -- One radar channel after repair, smoothing (from seven samples on) and clamping.
  abbrev pub cleaned : F → Bool → List F → List F
  cleaned m long c =
      let repaired = (repair_radar_channel fl c m).0 in
      map (λ v. max_f fl v m) (if long then savgol_7_2_interp fl repaired else repaired)

  abbrev pub resampled : List F → List F
  resampled c = (resample_linear_normalized fl c target_length []).1

  repair_all_lem :
      (cs : List (List F)) (m : F) (r : PreprocessReport)
      → (repair_all fl cs m r).0 ≡ map (λ c. (repair_radar_channel fl c m).0) cs
  unfolding repair_all
  repair_all_lem [] m r = refl
  repair_all_lem (c ∷ cs) m r = rw (repair_all_lem cs m)

  cleaned_all :
      (m : F) (long : Bool) (cs : List (List F))
      → map (map (λ v. max_f fl v m)) (
          if long
          then map (savgol_7_2_interp fl) (map (λ c. (repair_radar_channel fl c m).0) cs)
          else map (λ c. (repair_radar_channel fl c m).0) cs)
        ≡ map (cleaned m long) cs
  cleaned_all m true [] = refl
  cleaned_all m true (c ∷ cs) = ap (λ l. cleaned m true c ∷ l) (cleaned_all m true cs)
  cleaned_all m false [] = refl
  cleaned_all m false (c ∷ cs) = ap (λ l. cleaned m false c ∷ l) (cleaned_all m false cs)

  length-savgol : (xs : List F) → length (savgol_7_2_interp fl xs) ≡ length xs
  unfolding savgol_7_2_interp smooth
  length-savgol xs = elim (Bool-cases (ltb (length xs) 7)) [
    | inl short ↦ rw short
    | inr long ↦ rw (
      long, length-set, length-set, length-set, length-write_range, length-set, length-set,
      length-set,
    )
  ]

  length-channel : (ch : ℕ) (ss : List (RawSample fl)) → length (channel fl ch ss) ≡ length ss
  length-channel ch [] = refl
  length-channel ch (s ∷ ss) = ap suc (length-channel ch ss)

  resample_success :
      (c : List F) → 0 < length c → (resample_linear_normalized fl c target_length []).0 ≡ success
  unfolding resample_linear_normalized
  resample_success [] h = absurd (omega arith)
  resample_success (s ∷ c) h = elim (Bool-cases (length (s ∷ c) == 1)) [
    | inl one ↦ rw one
    | inr more ↦ rw more
  ]

  abbrev NoneEmpty : List (List F) → Type 0
  NoneEmpty [] = Unit {0}
  NoneEmpty (c ∷ cs) = (0 < length c) × NoneEmpty cs

  resample_all_lem :
      (cs : List (List F)) → NoneEmpty cs → resample_all fl cs ≡ (success, map resampled cs)
  unfolding resample_all
  resample_all_lem [] h = refl
  resample_all_lem (c ∷ cs) (h, hs) = rw (resample_all_lem cs hs, resample_success c h) refl

  get_or-channels :
      (f g : List F → List F) (ch n i : ℕ) (ss : List (RawSample fl))
      → i < n
      → get_or (map g (map f (channels_from fl ch n ss))) i [] ≡ g (f (channel fl (ch + i) ss))
  get_or-channels f g ch zero i ss h = absurd (omega arith)
  get_or-channels f g ch (suc n) zero ss h = ap (λ k. g (f (channel fl k ss))) (omega arith)
  get_or-channels f g ch (suc n) (suc i) ss h =
      get_or-channels f g (ch + 1) n i ss (omega arith)
      ∙ ap (λ k. g (f (channel fl k ss))) (omega arith)

  length-imu :
      (ss : List (RawSample fl)) → length (sanitize_imu fl (imu_channel fl ss)).0 ≡ length ss
  unfolding sanitize_imu
  length-imu [] = refl
  length-imu (s ∷ ss) = elim (Bool-cases (is_finite s.imu)) [
    | inl good ↦ rw good (ap suc (length-imu ss))
    | inr bad ↦ rw bad (ap suc (length-imu ss))
  ]

  module _ (laws : IsIeee fl) where
    length-cleaned : (m : F) (long : Bool) (c : List F) → length (cleaned m long c) ≡ length c
    length-cleaned m true c =
        length-map (savgol_7_2_interp fl (repair_radar_channel fl c m).0) (λ v. max_f fl v m)
        ∙ length-savgol (repair_radar_channel fl c m).0
        ∙ (repair_keeps_valid fl laws c m).0
    length-cleaned m false c =
        length-map (repair_radar_channel fl c m).0 (λ v. max_f fl v m)
        ∙ (repair_keeps_valid fl laws c m).0

    cleaned-NoneEmpty :
        (m : F) (long : Bool) (ch n : ℕ) (ss : List (RawSample fl))
        → 0 < length ss
        → NoneEmpty (map (cleaned m long) (channels_from fl ch n ss))
    cleaned-NoneEmpty m long ch zero ss h = tt
    cleaned-NoneEmpty m long ch (suc n) ss h = (
      omega (arith, length-cleaned m long (channel fl ch ss), length-channel ch ss),
      cleaned-NoneEmpty m long (ch + 1) n ss h,
    )

    -- If the float type is ordered as IEEE 754 says, a run succeeds exactly for at least one sample and
    -- a finite `sensor_min`, and otherwise leaves the output alone. After a success row `t`, column `c`
    -- of the tensor is value `t` of channel `c` resampled, after it was repaired, smoothed if there are
    -- seven samples or more, and clamped from below; the last column is the sanitized IMU resampled.
    pub run_tensor :
        (options : PreprocessOptions fl) (ss : List (RawSample fl)) (output : ModelInput fl)
        → length output ≡ element_count
        → let (status, tensor, report) = run fl options ss output in
          let long = leb 7 (length ss) in
          ((is_ok status ≡ true) ↔ ((ss ≢ []) × (is_finite options.sensor_min ≡ true)))
          × (is_ok status ≡ false → tensor ≡ output)
          × (is_ok status ≡ true
              → (t c : ℕ) → t < target_length
              → c < radar_channels
              → at fl tensor t c
                ≡ some (
                    get_or
                      (resampled (cleaned options.sensor_min long (channel fl c ss)))
                      t
                      quiet_nan))
          × (is_ok status ≡ true
              → (t : ℕ) → t < target_length
              → at fl tensor t radar_channels
                ≡ some (get_or (resampled (sanitize_imu fl (imu_channel fl ss)).0) t quiet_nan))
    unfolding run emit
    run_tensor options [] output size =
        (ground arith, λ _. refl, λ e. absurd (ground arith), λ e. absurd (ground arith))
    run_tensor options (s ∷ ss) output size = elim (Bool-cases (is_finite options.sensor_min)) [
      | inr bad ↦
          rw bad (ground arith, λ _. refl, λ e. absurd (ground arith), λ e. absurd (ground arith))
      | inl good ↦
          let all = s ∷ ss in
          let m = options.sensor_min in
          let long = leb 7 (length all) in
          let imu = (sanitize_imu fl (imu_channel fl all)).0 in
          let ready = cleaned-NoneEmpty m long 0 radar_channels all (omega arith) in
          let radar = map (cleaned m long) (channels_from fl 0 radar_channels all) in
          rw
            (
              good,
              repair_all_lem (channels_from fl 0 radar_channels all) m
                  (blank_report fl (length all)),
              cleaned_all m long (channels_from fl 0 radar_channels all),
              resample_all_lem radar ready,
              resample_success imu (omega (arith, length-imu all)),
            )
            (
              (λ _. ((λ e. cc), refl), λ _. refl),
              λ e. cc,
              λ _ t c ht hc.
                  at-write_tensor fl (map resampled radar) (resampled imu) output t c size ht
                    (omega arith)
                  ∙ rw (lt→ltb c radar_channels hc) (
                      ap (λ l. some (get_or l t quiet_nan))
                        (get_or-channels (cleaned m long) resampled 0 radar_channels c all hc
                          ∙ ap (λ k. resampled (cleaned m long (channel fl k all))) (omega arith))),
              λ _ t ht.
                  at-write_tensor fl (map resampled radar) (resampled imu) output t radar_channels
                    size ht (omega arith),
            )
    ]
