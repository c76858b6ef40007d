-- ===== src/Savgol/Fit.antt =====
-- What the filter computes, in exact arithmetic: a least-squares parabola (preprocess/savgol.cpp).
use pipe_ai_rk3588_industria.Prelude.{ℕ, ◌+◌, ◌*◌, ◌^◌, ◌≡◌, Option, List, arith}
use pipe_ai_rk3588_industria.Prelude.Int.{
  ℤ, pos, pos_part, neg_part, ◌+ℤ◌, ◌*ℤ◌, +ℤ_parts, eq_of_parts,
}
use pipe_ai_rk3588_industria.Floats.Fixed.{fixed}
use pipe_ai_rk3588_industria.Savgol.{weighted_sum}
use pipe_ai_rk3588_industria.Savgol.Exact.{
  IsRow0, IsRow1, IsRow2, IsRow3, IsRow4, IsRow5, IsRow6, IsWindow, row_0, row_1, row_2, row_3,
  row_4, row_5, row_6, rows, weighted_sum-dot, row_0_parts, row_1_parts, row_2_parts, row_3_parts,
  row_4_parts, row_5_parts, row_6_parts, *ℤ_parts,
}

-- The third difference at `r` is zero.
abbrev pub IsFlatAt : (ℕ → ℤ) → ℕ → Type 0
IsFlatAt f r = f (r + 3) +ℤ pos 3 *ℤ f (r + 1) ≡ pos 3 *ℤ f (r + 2) +ℤ f r

-- The sum of `r ^ k * f r` over a window.
abbrev pub moment : ℕ → (ℕ → ℤ) → ℤ
moment k f =
    pos (0 ^ k) *ℤ f 0
    +ℤ pos (1 ^ k) *ℤ f 1
    +ℤ pos (2 ^ k) *ℤ f 2
    +ℤ pos (3 ^ k) *ℤ f 3
    +ℤ pos (4 ^ k) *ℤ f 4
    +ℤ pos (5 ^ k) *ℤ f 5
    +ℤ pos (6 ^ k) *ℤ f 6

moment_0_parts :
    (f : ℕ → ℤ)
    → pos_part (moment 0 f)
        + 1 * neg_part (f 0)
        + 1 * neg_part (f 1)
        + 1 * neg_part (f 2)
        + 1 * neg_part (f 3)
        + 1 * neg_part (f 4)
        + 1 * neg_part (f 5)
        + 1 * neg_part (f 6)
      ≡ neg_part (moment 0 f)
        + 1 * pos_part (f 0)
        + 1 * pos_part (f 1)
        + 1 * pos_part (f 2)
        + 1 * pos_part (f 3)
        + 1 * pos_part (f 4)
        + 1 * pos_part (f 5)
        + 1 * pos_part (f 6)
moment_0_parts f = omega (arith, +ℤ_parts, *ℤ_parts)

moment_1_parts :
    (f : ℕ → ℤ)
    → pos_part (moment 1 f)
        + 1 * neg_part (f 1)
        + 2 * neg_part (f 2)
        + 3 * neg_part (f 3)
        + 4 * neg_part (f 4)
        + 5 * neg_part (f 5)
        + 6 * neg_part (f 6)
      ≡ neg_part (moment 1 f)
        + 1 * pos_part (f 1)
        + 2 * pos_part (f 2)
        + 3 * pos_part (f 3)
        + 4 * pos_part (f 4)
        + 5 * pos_part (f 5)
        + 6 * pos_part (f 6)
moment_1_parts f = omega (arith, +ℤ_parts, *ℤ_parts)

moment_2_parts :
    (f : ℕ → ℤ)
    → pos_part (moment 2 f)
        + 1 * neg_part (f 1)
        + 4 * neg_part (f 2)
        + 9 * neg_part (f 3)
        + 16 * neg_part (f 4)
        + 25 * neg_part (f 5)
        + 36 * neg_part (f 6)
      ≡ neg_part (moment 2 f)
        + 1 * pos_part (f 1)
        + 4 * pos_part (f 2)
        + 9 * pos_part (f 3)
        + 16 * pos_part (f 4)
        + 25 * pos_part (f 5)
        + 36 * pos_part (f 6)
moment_2_parts f = omega (arith, +ℤ_parts, *ℤ_parts)

module _ (f a : ℕ → ℤ) (h0 : IsRow0 a (f 0)) (h1 : IsRow1 a (f 1)) (h2 : IsRow2 a (f 2))
    (h3 : IsRow3 a (f 3)) (h4 : IsRow4 a (f 4)) (h5 : IsRow5 a (f 5)) (h6 : IsRow6 a (f 6)) where
  parabola_lem : IsFlatAt f 0 × IsFlatAt f 1 × IsFlatAt f 2 × IsFlatAt f 3
  parabola_lem = omega (arith, h0, h1, h2, h3, h4, h5, h6, +ℤ_parts, *ℤ_parts, eq_of_parts)

  moment_0_kept : moment 0 f ≡ moment 0 (λ j. pos 42 *ℤ a j)
  moment_0_kept = eq_of_parts _ _ (
      omega (
        arith,
        h0,
        h1,
        h2,
        h3,
        h4,
        h5,
        h6,
        moment_0_parts f,
        moment_0_parts (λ j. pos 42 *ℤ a j),
        *ℤ_parts (pos 42) (a 0),
        *ℤ_parts (pos 42) (a 1),
        *ℤ_parts (pos 42) (a 2),
        *ℤ_parts (pos 42) (a 3),
        *ℤ_parts (pos 42) (a 4),
        *ℤ_parts (pos 42) (a 5),
        *ℤ_parts (pos 42) (a 6),
      ))

  moment_1_kept : moment 1 f ≡ moment 1 (λ j. pos 42 *ℤ a j)
  moment_1_kept = eq_of_parts _ _ (
      omega (
        arith,
        h0,
        h1,
        h2,
        h3,
        h4,
        h5,
        h6,
        moment_1_parts f,
        moment_1_parts (λ j. pos 42 *ℤ a j),
        *ℤ_parts (pos 42) (a 0),
        *ℤ_parts (pos 42) (a 1),
        *ℤ_parts (pos 42) (a 2),
        *ℤ_parts (pos 42) (a 3),
        *ℤ_parts (pos 42) (a 4),
        *ℤ_parts (pos 42) (a 5),
        *ℤ_parts (pos 42) (a 6),
      ))

  moment_2_kept : moment 2 f ≡ moment 2 (λ j. pos 42 *ℤ a j)
  moment_2_kept = eq_of_parts _ _ (
      omega (
        arith,
        h0,
        h1,
        h2,
        h3,
        h4,
        h5,
        h6,
        moment_2_parts f,
        moment_2_parts (λ j. pos 42 *ℤ a j),
        *ℤ_parts (pos 42) (a 0),
        *ℤ_parts (pos 42) (a 1),
        *ℤ_parts (pos 42) (a 2),
        *ℤ_parts (pos 42) (a 3),
        *ℤ_parts (pos 42) (a 4),
        *ℤ_parts (pos 42) (a 5),
        *ℤ_parts (pos 42) (a 6),
      ))

-- In exact arithmetic, the sums that the filter's seven weight rows give over any seven readings are
-- 42 times the least-squares parabola through these: the seven values lie on a parabola (their third
-- differences are zero), and their residuals are orthogonal to 1, `r` and `r ^ 2`.
pub evaluate_least_squares :
    (xs : List (Option ℤ)) (start : ℕ) (a : ℕ → ℤ)
    → IsWindow xs start a
    → let y = λ (r : ℕ). weighted_sum fixed xs start r in
      IsFlatAt y 0
      × IsFlatAt y 1
      × IsFlatAt y 2
      × IsFlatAt y 3
      × (moment 0 y ≡ moment 0 (λ j. pos 42 *ℤ a j))
      × (moment 1 y ≡ moment 1 (λ j. pos 42 *ℤ a j))
      × (moment 2 y ≡ moment 2 (λ j. pos 42 *ℤ a j))
evaluate_least_squares xs start a h =
    let f = λ (r : ℕ). weighted_sum fixed xs start r in
    let (r0, r1, r2, r3, r4, r5, r6) = rows in
    let h0 : IsRow0 a (f 0) =
      rw (weighted_sum-dot xs start 0 a row_0 h r0 (omega arith)) (row_0_parts a) in
    let h1 : IsRow1 a (f 1) =
      rw (weighted_sum-dot xs start 1 a row_1 h r1 (omega arith)) (row_1_parts a) in
    let h2 : IsRow2 a (f 2) =
      rw (weighted_sum-dot xs start 2 a row_2 h r2 (omega arith)) (row_2_parts a) in
    let h3 : IsRow3 a (f 3) =
      rw (weighted_sum-dot xs start 3 a row_3 h r3 (omega arith)) (row_3_parts a) in
    let h4 : IsRow4 a (f 4) =
      rw (weighted_sum-dot xs start 4 a row_4 h r4 (omega arith)) (row_4_parts a) in
    let h5 : IsRow5 a (f 5) =
      rw (weighted_sum-dot xs start 5 a row_5 h r5 (omega arith)) (row_5_parts a) in
    let h6 : IsRow6 a (f 6) =
      rw (weighted_sum-dot xs start 6 a row_6 h r6 (omega arith)) (row_6_parts a) in
    let (f0, f1, f2, f3) = parabola_lem f a h0 h1 h2 h3 h4 h5 h6 in
    (
      f0,
      f1,
      f2,
      f3,
      moment_0_kept f a h0 h1 h2 h3 h4 h5 h6,
      moment_1_kept f a h0 h1 h2 h3 h4 h5 h6,
      moment_2_kept f a h0 h1 h2 h3 h4 h5 h6,
    )
