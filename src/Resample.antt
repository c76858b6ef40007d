-- ===== src/Resample.antt =====
-- Resampling to a fixed length: preprocess/resample.cpp.
pub mod Bounds
pub mod Tests
use pipe_ai_rk3588_industria.Prelude.{
  ℕ, suc, ◌-◌, List, [], ◌∷◌, leb, ◌==◌, if◌then◌else◌, length, set, get_or, replicate, tabulate,
}
use pipe_ai_rk3588_industria.Floats.{Floats}
use pipe_ai_rk3588_industria.Status.{Status, success, failure, invalid_argument}
use pipe_ai_rk3588_industria.Text.{codes}

module _ (fl : Floats) where
  open fl use {
    F, zero_f, one_f, quiet_nan, le, lt, widen, narrow, of_size, d_add, d_sub, d_mul, d_div,
  }

  unfoldable pub linspace01_float32 : ℕ → List F
  linspace01_float32 count =
      if leb count 1
      then replicate count zero_f
      else set
          (set (tabulate (λ i. narrow (d_div (of_size i) (of_size (count - 1)))) 0 count) 0 zero_f)
          (count - 1) one_f

  -- `std::upper_bound`, as an index: the first knot above `x`, or the number of knots.
  unfoldable pub upper_bound : List F → F → ℕ
  upper_bound [] x = 0
  upper_bound (y ∷ ys) x = if lt x y then 0 else suc (upper_bound ys x)

  abbrev pub value_at : List F → ℕ → F
  value_at xs i = get_or xs i quiet_nan

  abbrev pub front : List F → F
  front xs = value_at xs 0

  abbrev pub back : List F → F
  back xs = value_at xs (length xs - 1)

  abbrev pub between : F → F → F → F → F → F
  between x x0 x1 y0 y1 =
      let t = d_div (d_sub (widen x) (widen x0)) (d_sub (widen x1) (widen x0)) in
      narrow (d_add (widen y0) (d_mul t (d_sub (widen y1) (widen y0))))

  unfoldable pub interp_one : F → List F → List F → F
  interp_one x xp fp =
      if le x (front xp)
      then front fp
      else if le (back xp) x
      then back fp
      else (let right = upper_bound xp x in
          let left = right - 1 in
          between x (value_at xp left) (value_at xp right) (value_at fp left) (value_at fp right))

  -- The status, and `output`, which a refusal leaves as it was.
  unfoldable pub resample_linear_normalized : List F → ℕ → List F → Status × List F
  resample_linear_normalized [] target output =
      (failure invalid_argument (codes "cannot resample an empty sequence"), output)
  resample_linear_normalized (s ∷ source) target output =
      if target == 0
      then (failure invalid_argument (codes "target_length must be > 0"), output)
      else if length (s ∷ source) == 1
      then (success, replicate target s)
      else if target == 1
      then (success, s ∷ [])
      else (let old_x = linspace01_float32 (length (s ∷ source)) in
          let new_x = linspace01_float32 target in
          (success, tabulate (λ i. interp_one (value_at new_x i) old_x (s ∷ source)) 0 target))
