-- ===== src/Savgol.antt =====
-- The smoothing filter: preprocess/savgol.cpp.
mod Exact
pub mod Fit
pub mod Parabola
pub mod Tests
use pipe_ai_rk3588_industria.Prelude.{
  ℕ, ◌+◌, ◌-◌, List, [], ◌∷◌, ltb, ◌==◌, if◌then◌else◌, length, set, get_or, write_range,
}
use pipe_ai_rk3588_industria.Floats.{Floats}

module _ (fl : Floats) where
  open fl use {F, D, quiet_nan, widen, narrow, of_size, d_add, d_mul, d_div, d_neg}

  -- `n / d` and `-n / d` in the source.
  abbrev frac : ℕ → ℕ → D
  frac n d = d_div (of_size n) (of_size d)

  abbrev neg_frac : ℕ → ℕ → D
  neg_frac n d = d_div (d_neg (of_size n)) (of_size d)

  -- Seven weights of a row, in `kWeights`.
  unfoldable pub weight_row : ℕ → List D
  weight_row row =
      if row == 0
      then frac 32 42
        ∷ frac 15 42
        ∷ frac 3 42
        ∷ neg_frac 4 42
        ∷ neg_frac 6 42
        ∷ neg_frac 3 42
        ∷ frac 5 42
        ∷ []
      else if row == 1
      then frac 15 42
        ∷ frac 12 42
        ∷ frac 9 42
        ∷ frac 6 42
        ∷ frac 3 42
        ∷ of_size 0
        ∷ neg_frac 3 42
        ∷ []
      else if row == 2
      then frac 3 42
        ∷ frac 9 42
        ∷ frac 12 42
        ∷ frac 12 42
        ∷ frac 9 42
        ∷ frac 3 42
        ∷ neg_frac 6 42
        ∷ []
      else if row == 3
      then neg_frac 2 21
        ∷ frac 3 21
        ∷ frac 6 21
        ∷ frac 7 21
        ∷ frac 6 21
        ∷ frac 3 21
        ∷ neg_frac 2 21
        ∷ []
      else if row == 4
      then neg_frac 6 42
        ∷ frac 3 42
        ∷ frac 9 42
        ∷ frac 12 42
        ∷ frac 12 42
        ∷ frac 9 42
        ∷ frac 3 42
        ∷ []
      else if row == 5
      then neg_frac 3 42
        ∷ of_size 0
        ∷ frac 3 42
        ∷ frac 6 42
        ∷ frac 9 42
        ∷ frac 12 42
        ∷ frac 15 42
        ∷ []
      else frac 5 42
        ∷ neg_frac 3 42
        ∷ neg_frac 6 42
        ∷ neg_frac 4 42
        ∷ frac 3 42
        ∷ frac 15 42
        ∷ frac 32 42
        ∷ []

  -- The loop of `evaluate` over the weights of a row; `at` is `start + j`.
  unfoldable pub accumulate : List F → ℕ → List D → D → D
  accumulate x at [] acc = acc
  accumulate x at (w ∷ ws) acc =
      accumulate x (at + 1) ws (d_add acc (d_mul w (widen (get_or x at quiet_nan))))

  -- `evaluate` before its result is rounded to `float`.
  unfoldable pub weighted_sum : List F → ℕ → ℕ → D
  weighted_sum x start row = accumulate x start (weight_row row) (of_size 0)

  unfoldable pub evaluate : List F → ℕ → ℕ → F
  evaluate x start row = narrow (weighted_sum x start row)

  unfoldable pub smooth : List F → List F
  smooth source =
      let n = length source in
      let start = n - 7 in
      let left =
        set (set (set source 0 (evaluate source 0 0)) 1 (evaluate source 0 1)) 2
          (evaluate source 0 2) in
      let inner = write_range (λ i. evaluate source (i - 3) 3) 3 (n - 6) left in
      set (set (set inner (n - 3) (evaluate source start 4)) (n - 2) (evaluate source start 5))
        (n - 1) (evaluate source start 6)

  unfoldable pub savgol_7_2_interp : List F → List F
  savgol_7_2_interp values = if ltb (length values) 7 then values else smooth values
