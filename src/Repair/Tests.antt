-- ===== src/Repair/Tests.antt =====
-- The examples of tests/test_missing_repair.cpp, and the theorems at one of them.
use pipe_ai_rk3588_industria.Prelude.{
  ℕ, ◌≡◌, refl, ◌≢◌, false, Option, none, some, List, [], ◌∷◌, map, write_range,
}
use pipe_ai_rk3588_industria.Prelude.Int.{ℤ, pos, negsuc, ◌+ℤ◌, ◌-ℤ◌, ◌*ℤ◌}
use pipe_ai_rk3588_industria.Floats.Fixed.{fixed, fixed-IsIeee, div_ℤ}
use pipe_ai_rk3588_industria.Repair.{
  repair_radar_channel, sanitize_imu, mark_invalid, fill_missing, fill_gaps, bridge_gap, skip_nan,
}
use pipe_ai_rk3588_industria.Repair.Interp.{interp}
use pipe_ai_rk3588_industria.Repair.Reference.{
  sanitized, count_invalid, every_invalid, repair_interpolates,
}

abbrev num : ℕ → Option ℤ
num n = some (pos n)

abbrev gappy : List (Option ℤ)
gappy = none ∷ none ∷ num 10 ∷ none ∷ none ∷ num 16 ∷ some (negsuc 0) ∷ []

repair_gappy : repair_radar_channel fixed gappy (num 150) ≡ (
  num 10 ∷ num 10 ∷ num 10 ∷ num 12 ∷ num 14 ∷ num 16 ∷ num 16 ∷ [],
  record { invalid_values = 5; all_invalid = false },
)
unfolding repair_radar_channel mark_invalid fill_missing fill_gaps bridge_gap write_range skip_nan
    div_ℤ ◌+ℤ◌ ◌-ℤ◌ ◌*ℤ◌
repair_gappy = refl

repair_hopeless :
    (repair_radar_channel fixed (num 0 ∷ some (negsuc 0) ∷ none ∷ []) (num 150)).0
    ≡ num 150 ∷ num 150 ∷ num 150 ∷ []
unfolding repair_radar_channel mark_invalid fill_missing skip_nan
repair_hopeless = refl

sanitize_mixed :
    sanitize_imu fixed (num 1 ∷ none ∷ some (negsuc 1) ∷ [])
    ≡ (num 1 ∷ num 0 ∷ some (negsuc 1) ∷ [], 1)
unfolding sanitize_imu
sanitize_mixed = refl

repair_interpolates_example :
    let (repaired, stats) = repair_radar_channel fixed gappy (num 150) in
    (repaired ≡ interp fixed (num 150) none (map (sanitized fixed) gappy))
    × (stats.invalid_values ≡ count_invalid fixed gappy)
    × (gappy ≢ [] → stats.all_invalid ≡ every_invalid fixed gappy)
repair_interpolates_example = repair_interpolates fixed fixed-IsIeee gappy (num 150)
