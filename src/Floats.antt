-- ===== src/Floats.antt =====
-- The `float` and `double` operations that the code uses. Arithmetic is left abstract: what a
-- theorem needs of it is a named law, and a concrete structure below meets all the laws at once.
pub mod Fixed
use pipe_ai_rk3588_industria.Prelude.{ℕ, ◌≡◌, ◌⊎◌, Bool, true, false, not, ◌||◌, if◌then◌else◌}

pub record Floats : Type 1 where
  -- `float` and `double`.
  pub F : Type 0
  pub D : Type 0
  -- `0.0F`, `1.0F` and `std::numeric_limits<float>::quiet_NaN()`.
  pub zero_f : F
  pub one_f : F
  pub quiet_nan : F
  -- `std::isfinite`, `std::isnan`, `<=` and `<`.
  pub is_finite : F → Bool
  pub is_nan : F → Bool
  pub le : F → F → Bool
  pub lt : F → F → Bool
  -- `+`, `-`, `*`, `/` and `std::exp` on `float`.
  pub add : F → F → F
  pub sub : F → F → F
  pub mul : F → F → F
  pub div : F → F → F
  pub exp : F → F
  -- `static_cast<double>(float)`, `static_cast<float>(double)`, `static_cast<double>(std::size_t)`.
  pub widen : F → D
  pub narrow : D → F
  pub of_size : ℕ → D
  pub d_add : D → D → D
  pub d_sub : D → D → D
  pub d_mul : D → D → D
  pub d_div : D → D → D
  pub d_neg : D → D

-- `std::max(a, b)` is `(a < b) ? b : a`.
abbrev pub max_f : (fl : Floats) → fl.F → fl.F → fl.F
max_f fl a b = if fl.lt a b then b else a

-- A reading that the sanitation keeps: `!(!std::isfinite(v) || v <= 0.0F)`.
abbrev pub is_valid : (fl : Floats) → fl.F → Bool
is_valid fl v = not (not (fl.is_finite v) || fl.le v fl.zero_f)

-- What IEEE 754 says of NaN, and of the order of the values that are not NaN.
pub record IsIeee (fl : Floats) : Type 0 where
  pub nan_is_nan : fl.is_nan fl.quiet_nan ≡ true
  pub finite_not_nan : (x : fl.F) → fl.is_finite x ≡ true → fl.is_nan x ≡ false
  pub one_finite : fl.is_finite fl.one_f ≡ true
  pub zero_finite : fl.is_finite fl.zero_f ≡ true
  pub le_refl : (x : fl.F) → fl.is_nan x ≡ false → fl.le x x ≡ true
  pub le_trans : (x y z : fl.F) → fl.le x y ≡ true → fl.le y z ≡ true → fl.le x z ≡ true
  pub le_total :
      (x y : fl.F)
      → fl.is_nan x ≡ false
      → fl.is_nan y ≡ false
      → (fl.le x y ≡ true) ⊎ (fl.lt y x ≡ true)
  pub lt_irrefl : (x : fl.F) → fl.lt x x ≡ false
  pub lt_trans : (x y z : fl.F) → fl.lt x y ≡ true → fl.lt y z ≡ true → fl.lt x z ≡ true
  pub lt_not_le : (x y : fl.F) → fl.lt x y ≡ true → fl.le y x ≡ false
  pub le_of_lt : (x y : fl.F) → fl.lt x y ≡ true → fl.le x y ≡ true
  pub zero_lt_one : fl.lt fl.zero_f fl.one_f ≡ true
