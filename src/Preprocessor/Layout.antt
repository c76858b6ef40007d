-- ===== src/Preprocessor/Layout.antt =====
-- Where the values of the tensor come from (preprocess/preprocessor.cpp).
use pipe_ai_rk3588_industria.Prelude.{
  ℕ, zero, suc, ◌+◌, ◌≤◌, ◌<◌, ◌≡◌, refl, ap, ◌∙◌, ◌≢◌, ◌⊎◌, inl, inr, some, List, [], arith, ltb,
  if◌then◌else◌, Bool-cases, length, length-set, get_or, length-write_range, get_or-set_self,
  get_or-set_ne, write_range_outside, write_range_inside, get_or-get_elem?,
}
use native.Mathlib.Decide.{ℕ_discrete}
use pipe_ai_rk3588_industria.Floats.{Floats}
use pipe_ai_rk3588_industria.Types.{
  radar_channels, input_channels, target_length, element_count, ModelInput, position, at,
}
use pipe_ai_rk3588_industria.Preprocessor.{write_step, write_tensor}

module _ (fl : Floats) (radar_out : List (List fl.F)) (imu_out : List fl.F) where
  open fl use {F, quiet_nan}

  -- What belongs at (t, c).
  abbrev pub entry : ℕ → ℕ → F
  entry t c =
      if ltb c radar_channels
      then get_or (get_or radar_out c []) t quiet_nan
      else get_or imu_out t quiet_nan

  length-write_step :
      (t : ℕ) (output : ModelInput fl)
      → length (write_step fl radar_out imu_out t output) ≡ length output
  unfolding write_step
  length-write_step t output = length-set _ _ _ ∙ length-write_range _ _ _ output

  write_step_other :
      (t u c : ℕ) (output : ModelInput fl)
      → t ≢ u
      → c < input_channels
      → get_or (write_step fl radar_out imu_out t output) (position fl u c) quiet_nan
        ≡ get_or output (position fl u c) quiet_nan
  unfolding write_step
  write_step_other t u c output ne h =
      get_or-set_ne _ (position fl t radar_channels) (position fl u c) _ quiet_nan (omega arith)
      ∙ write_range_outside _ quiet_nan (position fl t 0) radar_channels output (position fl u c)
          (omega arith)

  write_step_own :
      (t c : ℕ) (output : ModelInput fl)
      → c < input_channels
      → position fl t c < length output
      → get_or (write_step fl radar_out imu_out t output) (position fl t c) quiet_nan ≡ entry t c
  unfolding write_step
  write_step_own t c output h fits = elim (Bool-cases (ltb c radar_channels)) [
    | inl radar ↦ rw radar (
        get_or-set_ne _ (position fl t radar_channels) (position fl t c) _ quiet_nan (ground arith)
        ∙ write_range_inside _ quiet_nan (position fl t 0) radar_channels output (position fl t c)
            (omega arith) (ground arith) fits
        ∙ ap (λ k. get_or (get_or radar_out k []) t quiet_nan) (omega arith))
    | inr last ↦
        let e : c ≡ radar_channels = ground arith in
        rw last (
          ap (λ k. get_or (write_step fl radar_out imu_out t output) (position fl t k) quiet_nan) e
          ∙ get_or-set_self _ (position fl t radar_channels) _ quiet_nan
              (omega (arith, length-write_range {0} {A = F}, e)))
  ]

  write_tensor_other :
      (from n u c : ℕ) (output : ModelInput fl)
      → (u < from) ⊎ (from + n ≤ u)
      → c < input_channels
      → get_or (write_tensor fl radar_out imu_out from n output) (position fl u c) quiet_nan
        ≡ get_or output (position fl u c) quiet_nan
  unfolding write_tensor
  write_tensor_other from zero u c output out h = refl
  write_tensor_other from (suc n) u c output out h =
      write_tensor_other (from + 1) n u c (write_step fl radar_out imu_out from output)
        (omega arith) h
      ∙ write_step_other from u c output (omega arith) h

  pub length-write_tensor :
      (from n : ℕ) (output : ModelInput fl)
      → length (write_tensor fl radar_out imu_out from n output) ≡ length output
  unfolding write_tensor
  length-write_tensor from zero output = refl
  length-write_tensor from (suc n) output =
      length-write_tensor (from + 1) n (write_step fl radar_out imu_out from output)
      ∙ length-write_step from output

  write_tensor_own :
      (from n u c : ℕ) (output : ModelInput fl)
      → from ≤ u
      → u < from + n
      → c < input_channels
      → position fl u c < length output
      → get_or (write_tensor fl radar_out imu_out from n output) (position fl u c) quiet_nan
        ≡ entry u c
  unfolding write_tensor
  write_tensor_own from zero u c output lo hi h fits = absurd (omega arith)
  write_tensor_own from (suc n) u c output lo hi h fits =
      let next = write_step fl radar_out imu_out from output in
      elim (ℕ_discrete from u) [
        | yes e ↦
            write_tensor_other (from + 1) n u c next (omega arith) h
            ∙ ap
                (λ k. get_or (write_step fl radar_out imu_out k output) (position fl u c) quiet_nan)
                e
            ∙ write_step_own u c output h fits
        | no ne ↦
            write_tensor_own (from + 1) n u c next (omega arith) (omega arith) h
              (omega (arith, length-write_step from output))
      ]

  -- The loops that fill the tensor put value `t` of channel `c` at row `t` and column `c`, and the
  -- IMU in the last column; every cell of the 128 rows and 9 columns is written, each inside the array.
  pub at-write_tensor :
      (output : ModelInput fl) (t c : ℕ)
      → length output ≡ element_count
      → t < target_length
      → c < input_channels
      → at fl (write_tensor fl radar_out imu_out 0 target_length output) t c ≡ some (entry t c)
  at-write_tensor output t c size ht hc =
      let written = write_tensor fl radar_out imu_out 0 target_length output in
      get_or-get_elem? written (position fl t c) quiet_nan
        (omega (arith, length-write_tensor 0 target_length output, size))
      ∙ ap some (
          write_tensor_own 0 target_length t c output (omega arith) (omega arith) hc
            (omega (arith, size)))
