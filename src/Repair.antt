-- ===== src/Repair.antt =====
-- Sanitation of one channel of readings: preprocess/missing_repair.cpp.
mod Split
pub mod Interp
mod Loops
pub mod Reference
pub mod Tests
use pipe_ai_rk3588_industria.Prelude.{
  ℕ, zero, suc, ◌+◌, ◌-◌, Bool, true, false, not, List, [], ◌∷◌, map, ltb, ◌==◌, if◌then◌else◌,
  length, get_or, drop, write_range,
}
use pipe_ai_rk3588_industria.Floats.{Floats, is_valid}

pub record RadarRepairStats : Type 0 where
  pub invalid_values : ℕ
  pub all_invalid : Bool

module _ (fl : Floats) where
  open fl use {F, D, zero_f, quiet_nan, is_finite, is_nan, widen, narrow, of_size, d_add, d_sub}
  open fl use {d_mul, d_div}

  -- The first loop: every reading that is not finite and positive becomes NaN, and is counted.
  unfoldable pub mark_invalid : List F → List F × ℕ
  mark_invalid [] = ([], 0)
  mark_invalid (v ∷ vs) =
      let (ws, n) = mark_invalid vs in
      if is_valid fl v then (v ∷ ws, n) else (quiet_nan ∷ ws, n + 1)

  -- How far `while (i < size && std::isnan(values[i])) ++i` goes; the length if all are NaN.
  unfoldable pub skip_nan : List F → ℕ
  skip_nan [] = 0
  skip_nan (v ∷ vs) = if is_nan v then suc (skip_nan vs) else 0

  abbrev pub value_at : List F → ℕ → F
  value_at vs i = get_or vs i quiet_nan

  -- The point `offset / span` of the way from `y0` to `y1`.
  abbrev pub point : F → F → ℕ → ℕ → F
  point y0 y1 offset span = narrow (
      d_add (widen y0)
        (d_mul (d_sub (widen y1) (widen y0)) (d_div (of_size offset) (of_size span))))

  -- The body of the last loop once `right` is a valid index.
  unfoldable pub bridge_gap : ℕ → ℕ → List F → List F
  bridge_gap left right vs =
      if ltb (left + 1) right
      then write_range (λ i. point (value_at vs left) (value_at vs right) (i - left) (right - left))
          (left + 1) (right - (left + 1)) vs
      else vs

  -- `while (left + 1 < values.size())`, on fuel.
  unfoldable pub fill_gaps : ℕ → ℕ → List F → List F
  fill_gaps zero left vs = vs
  fill_gaps (suc fuel) left vs =
      let right = left + 1 + skip_nan (drop (left + 1) vs) in
      let rest = fill_gaps fuel right (bridge_gap left right vs) in
      if ltb (left + 1) (length vs)
      then if right == length vs
        then write_range (λ _. value_at vs left) (left + 1) (length vs - (left + 1)) vs
        else rest
      else vs

  -- Behind the first loop.
  unfoldable pub fill_missing : List F → F → List F × Bool
  fill_missing vs sensor_min =
      let first_valid = skip_nan vs in
      if first_valid == length vs then (map (λ _. sensor_min) vs, true) else (
        fill_gaps (length vs) first_valid
            (write_range (λ _. value_at vs first_valid) 0 first_valid vs),
        false,
      )

  unfoldable pub repair_radar_channel : List F → F → List F × RadarRepairStats
  repair_radar_channel [] sensor_min = ([], record { invalid_values = 0; all_invalid = false })
  repair_radar_channel (v ∷ vs) sensor_min =
      let (marked, n) = mark_invalid (v ∷ vs) in
      let (filled, every) = fill_missing marked sensor_min in
      (filled, record { invalid_values = n; all_invalid = every })

  unfoldable pub sanitize_imu : List F → List F × ℕ
  sanitize_imu [] = ([], 0)
  sanitize_imu (v ∷ vs) =
      let (ws, n) = sanitize_imu vs in
      if not (is_finite v) then (zero_f ∷ ws, n + 1) else (v ∷ ws, n)
