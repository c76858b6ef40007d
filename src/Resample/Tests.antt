-- ===== src/Resample/Tests.antt =====
-- The example of tests/test_resample.cpp, and the theorems at it (preprocess/resample.cpp).
use pipe_ai_rk3588_industria.Prelude.{
  ℕ, ◌<◌, ◌≡◌, refl, ◌≢◌, ◌↔◌, true, false, Option, some, List, [], ◌∷◌, arith, length,
}
use pipe_ai_rk3588_industria.Prelude.Int.{ℤ, pos}
use pipe_ai_rk3588_industria.Floats.Fixed.{fixed, fixed-IsIeee}
use pipe_ai_rk3588_industria.Status.{is_ok, success}
use pipe_ai_rk3588_industria.Resample.{resample_linear_normalized, front, back}
use pipe_ai_rk3588_industria.Resample.Bounds.{resample_total, resample_ends}

abbrev num : ℕ → Option ℤ
num n = some (pos n)

abbrev ramp : List (Option ℤ)
ramp = num 0 ∷ num 10 ∷ num 20 ∷ []

copied :
    resample_linear_normalized fixed (num 42 ∷ []) 3 [] ≡ (success, num 42 ∷ num 42 ∷ num 42 ∷ [])
unfolding resample_linear_normalized
copied = refl

resample_total_example :
    let (status, result) = resample_linear_normalized fixed ramp 5 [] in
    ((is_ok status ≡ true) ↔ ((ramp ≢ []) × (0 < 5)))
    × (is_ok status ≡ false → result ≡ [])
    × (is_ok status ≡ true → length result ≡ 5)
resample_total_example = resample_total fixed ramp 5 []

resample_ends_example :
    let result = (resample_linear_normalized fixed ramp 5 []).1 in
    (front fixed result ≡ num 0) × (1 < 5 → back fixed result ≡ back fixed ramp)
resample_ends_example =
    resample_ends fixed fixed-IsIeee (num 0) (num 10 ∷ num 20 ∷ []) 5 [] (omega arith)
