-- ===== src/Savgol/Tests.antt =====
-- The filter on squares, and on readings that are no parabola (preprocess/savgol.cpp).
use pipe_ai_rk3588_industria.Prelude.{
  ℕ, ◌*◌, ◌≡◌, refl, ap, ◌∙◌, none, some, [], ◌∷◌, arith, ◌==◌, if◌then◌else◌, get_or, write_range,
  get_or-tabulate,
}
use pipe_ai_rk3588_industria.Prelude.Int.{ℤ, pos, negsuc, ◌+ℤ◌, ◌-ℤ◌, ◌*ℤ◌, +ℤ_parts, eq_of_parts}
use pipe_ai_rk3588_industria.Floats.Fixed.{fixed, div_ℤ}
use pipe_ai_rk3588_industria.Savgol.{
  weighted_sum, savgol_7_2_interp, smooth, evaluate, accumulate, weight_row,
}
use pipe_ai_rk3588_industria.Savgol.Exact.{IsWindow, *ℤ_parts}
use pipe_ai_rk3588_industria.Savgol.Fit.{IsFlatAt, moment, evaluate_least_squares}
use pipe_ai_rk3588_industria.Savgol.Parabola.{samples_of, savgol_keeps_parabola}

abbrev squares : ℕ → ℤ
squares i = pos (i * i)

-- One reading that stands out.
abbrev spike : ℕ → ℤ
spike i = if i == 3 then pos 42 else pos 0

spike_smoothed :
    savgol_7_2_interp fixed (samples_of spike 7)
    ≡ some (negsuc 3)
      ∷ some (pos 6)
      ∷ some (pos 12)
      ∷ some (pos 14)
      ∷ some (pos 12)
      ∷ some (pos 6)
      ∷ some (negsuc 3)
      ∷ []
unfolding savgol_7_2_interp smooth evaluate weighted_sum accumulate weight_row write_range div_ℤ
    ◌+ℤ◌ ◌-ℤ◌ ◌*ℤ◌
spike_smoothed = refl

squares_flat : (r : ℕ) → IsFlatAt squares r
squares_flat r = eq_of_parts _ _ (omega (arith, +ℤ_parts, *ℤ_parts))

savgol_keeps_parabola_example :
    savgol_7_2_interp fixed (samples_of squares 12) ≡ samples_of squares 12
savgol_keeps_parabola_example = savgol_keeps_parabola squares 12 squares_flat

spike-IsWindow : IsWindow (samples_of spike 7) 0 spike
spike-IsWindow j h =
    ap (λ i. get_or (samples_of spike 7) i none) (omega arith)
    ∙ get_or-tabulate (λ i. some (spike i)) none 0 7 j h
    ∙ ap (λ i. some (spike i)) (omega arith)

evaluate_least_squares_example :
    let y = λ (r : ℕ). weighted_sum fixed (samples_of spike 7) 0 r in
    IsFlatAt y 0
    × IsFlatAt y 1
    × IsFlatAt y 2
    × IsFlatAt y 3
    × (moment 0 y ≡ moment 0 (λ j. pos 42 *ℤ spike j))
    × (moment 1 y ≡ moment 1 (λ j. pos 42 *ℤ spike j))
    × (moment 2 y ≡ moment 2 (λ j. pos 42 *ℤ spike j))
evaluate_least_squares_example = evaluate_least_squares (samples_of spike 7) 0 spike spike-IsWindow
