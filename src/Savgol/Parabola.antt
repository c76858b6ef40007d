-- ===== src/Savgol/Parabola.antt =====
-- The filter leaves samples of a parabola alone (preprocess/savgol.cpp).
use pipe_ai_rk3588_industria.Prelude.{
  ℕ, zero, suc, ◌+◌, ◌-◌, ◌*◌, ◌≤◌, ◌<◌, ◌≡◌, refl, sym, ap, ◌∙◌, inl, inr, Option, none, some,
  List, arith, ltb, Bool-cases, length, set, tabulate, length-tabulate, write_range, set-get_or,
  get_or-tabulate,
}
use pipe_ai_rk3588_industria.Prelude.Int.{ℤ, pos_part, neg_part, +ℤ_parts}
use pipe_ai_rk3588_industria.Floats.Fixed.{fixed}
use pipe_ai_rk3588_industria.Savgol.{evaluate, smooth, savgol_7_2_interp}
use pipe_ai_rk3588_industria.Savgol.Exact.{
  IsWindow, row_0, row_1, row_2, row_3, row_4, row_5, row_6, rows, weighted_sum-dot, row_0_parts,
  row_1_parts, row_2_parts, row_3_parts, row_4_parts, row_5_parts, row_6_parts, *ℤ_parts, div_ℤ_lem,
}
use pipe_ai_rk3588_industria.Savgol.Fit.{IsFlatAt}

IsFlatAt-parts :
    (f : ℕ → ℤ) (r : ℕ)
    → IsFlatAt f r
    → pos_part (f (r + 3)) + 3 * pos_part (f (r + 1)) + (3 * neg_part (f (r + 2)) + neg_part (f r))
      ≡ neg_part (f (r + 3))
        + 3 * neg_part (f (r + 1))
        + (3 * pos_part (f (r + 2)) + pos_part (f r))
IsFlatAt-parts f r h = omega (arith, ap pos_part h, ap neg_part h, +ℤ_parts, *ℤ_parts)

module _ (xs : List (Option ℤ)) (start : ℕ) (a : ℕ → ℤ) (h : IsWindow xs start a)
    (flat : (r : ℕ) → IsFlatAt a r) where
  evaluate_window :
      (evaluate fixed xs start 0 ≡ some (a 0))
      × (evaluate fixed xs start 1 ≡ some (a 1))
      × (evaluate fixed xs start 2 ≡ some (a 2))
      × (evaluate fixed xs start 3 ≡ some (a 3))
      × (evaluate fixed xs start 4 ≡ some (a 4))
      × (evaluate fixed xs start 5 ≡ some (a 5))
      × (evaluate fixed xs start 6 ≡ some (a 6))
  unfolding evaluate
  evaluate_window =
      let (r0, r1, r2, r3, r4, r5, r6) = rows in
      let p0 = IsFlatAt-parts a 0 (flat 0) in
      let p1 = IsFlatAt-parts a 1 (flat 1) in
      let p2 = IsFlatAt-parts a 2 (flat 2) in
      let p3 = IsFlatAt-parts a 3 (flat 3) in
      (
        ap some (
            div_ℤ_lem _ _ (
              rw (weighted_sum-dot xs start 0 a row_0 h r0 (omega arith))
                (omega (arith, row_0_parts a, p0, p1, p2, p3)))),
        ap some (
            div_ℤ_lem _ _ (
              rw (weighted_sum-dot xs start 1 a row_1 h r1 (omega arith))
                (omega (arith, row_1_parts a, p0, p1, p2, p3)))),
        ap some (
            div_ℤ_lem _ _ (
              rw (weighted_sum-dot xs start 2 a row_2 h r2 (omega arith))
                (omega (arith, row_2_parts a, p0, p1, p2, p3)))),
        ap some (
            div_ℤ_lem _ _ (
              rw (weighted_sum-dot xs start 3 a row_3 h r3 (omega arith))
                (omega (arith, row_3_parts a, p0, p1, p2, p3)))),
        ap some (
            div_ℤ_lem _ _ (
              rw (weighted_sum-dot xs start 4 a row_4 h r4 (omega arith))
                (omega (arith, row_4_parts a, p0, p1, p2, p3)))),
        ap some (
            div_ℤ_lem _ _ (
              rw (weighted_sum-dot xs start 5 a row_5 h r5 (omega arith))
                (omega (arith, row_5_parts a, p0, p1, p2, p3)))),
        ap some (
            div_ℤ_lem _ _ (
              rw (weighted_sum-dot xs start 6 a row_6 h r6 (omega arith))
                (omega (arith, row_6_parts a, p0, p1, p2, p3)))),
      )

IsFlatAt-shift :
    (a : ℕ → ℤ) (start r : ℕ) → IsFlatAt a (start + r) → IsFlatAt (λ j. a (start + j)) r
IsFlatAt-shift a start r h =
    let e3 : start + (r + 3) ≡ start + r + 3 = omega arith in
    let e2 : start + (r + 2) ≡ start + r + 2 = omega arith in
    let e1 : start + (r + 1) ≡ start + r + 1 = omega arith in rw (e3, e2, e1) h

-- The samples of `a` at 0, 1, ..., n - 1.
abbrev pub samples_of : (ℕ → ℤ) → ℕ → List (Option ℤ)
samples_of a n = tabulate (λ i. some (a i)) 0 n

module _ (a : ℕ → ℤ) (n : ℕ) (flat : (r : ℕ) → IsFlatAt a r) where
  window : (start : ℕ) → start + 7 ≤ n → IsWindow (samples_of a n) start (λ j. a (start + j))
  window start h j k =
      get_or-tabulate (λ i. some (a i)) none 0 n (start + j) (omega arith)
      ∙ ap (λ i. some (a i)) (omega arith)

  set_self :
      (i : ℕ) (v : Option ℤ) → i < n → v ≡ some (a i) → set (samples_of a n) i v ≡ samples_of a n
  set_self i v h e =
      let own =
        get_or-tabulate (λ i. some (a i)) none 0 n i h ∙ ap (λ i. some (a i)) (omega arith) in
      ap (set (samples_of a n) i) (e ∙ sym own)
      ∙ set-get_or (samples_of a n) i none (omega (arith, length-tabulate (λ i. some (a i)) 0 n))

  write_range_self :
      (g : ℕ → Option ℤ) (from k : ℕ)
      → from + k ≤ n
      → ((i : ℕ) → from ≤ i → i < from + k → g i ≡ some (a i))
      → write_range g from k (samples_of a n) ≡ samples_of a n
  unfolding write_range
  write_range_self g from zero h own = refl
  write_range_self g from (suc k) h own =
      ap (write_range g (from + 1) k)
        (set_self from (g from) (omega arith) (own from (omega arith) (omega arith)))
      ∙ write_range_self g (from + 1) k (omega arith) (λ i lo hi. own i (omega arith) (omega arith))

  smooth_self : 7 ≤ n → smooth fixed (samples_of a n) ≡ samples_of a n
  unfolding smooth
  smooth_self big =
      let xs = samples_of a n in
      let size : length xs ≡ n = length-tabulate (λ i. some (a i)) 0 n in
      let last = n - 7 in
      let at = λ (start : ℕ) (fits : start + 7 ≤ n).
        evaluate_window xs start (λ j. a (start + j)) (window start fits)
          (λ r. IsFlatAt-shift a start r (flat (start + r))) in
      let (l0, l1, l2, l3, l4, l5, l6) = at 0 (omega arith) in
      let (e0, e1, e2, e3, e4, e5, e6) = at last (omega arith) in
      let moved = λ (i j : ℕ) (e : i ≡ j). ap (λ k. some (a k)) e in
      rw (
        size,
        set_self 0 _ (omega arith) l0,
        set_self 1 _ (omega arith) l1,
        set_self 2 _ (omega arith) l2,
        write_range_self (λ i. evaluate fixed xs (i - 3) 3) 3 (n - 6) (omega arith)
            (λ i lo hi. (at (i - 3) (omega arith)).3 ∙ moved (i - 3 + 3) i (omega arith)),
        set_self (n - 3) _ (omega arith) (e4 ∙ moved (last + 4) (n - 3) (omega arith)),
        set_self (n - 2) _ (omega arith) (e5 ∙ moved (last + 5) (n - 2) (omega arith)),
        set_self (n - 1) _ (omega arith) (e6 ∙ moved (last + 6) (n - 1) (omega arith)),
      )

  -- In exact arithmetic the filter leaves the samples of any parabola (a sequence whose third
  -- differences are zero) as they are, however many there are, up to both ends.
  pub savgol_keeps_parabola : savgol_7_2_interp fixed (samples_of a n) ≡ samples_of a n
  unfolding savgol_7_2_interp
  savgol_keeps_parabola = elim (Bool-cases (ltb (length (samples_of a n)) 7)) [
    | inl short ↦ rw short
    | inr long ↦ rw long (smooth_self (ground (arith, length-tabulate (λ i. some (a i)) 0 n)))
  ]
