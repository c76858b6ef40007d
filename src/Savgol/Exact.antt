-- ===== src/Savgol/Exact.antt =====
-- The filter in exact arithmetic (preprocess/savgol.cpp).
use pipe_ai_rk3588_industria.Prelude.{
  ℕ, suc, ◌+◌, ◌*◌, ◌≤◌, ◌<◌, ◌≡◌, refl, ap, ◌∙◌, Option, none, some, List, [], ◌∷◌, arith, length,
  get_or,
}
use pipe_ai_rk3588_industria.Prelude.Int.{
  ℤ, pos, negsuc, pos_part, neg_part, ◌+ℤ◌, ◌-ℤ◌, ◌*ℤ◌, +ℤ_parts,
}
use pipe_ai_rk3588_industria.Floats.Fixed.{fixed, div_ℤ}
use pipe_ai_rk3588_industria.Savgol.{weight_row, accumulate, weighted_sum}

pub div_ℤ_lem :
    (z w : ℤ) → pos_part z + 42 * neg_part w ≡ 42 * pos_part w + neg_part z → div_ℤ z (pos 42) ≡ w
unfolding div_ℤ
div_ℤ_lem (pos a) (pos b) h = ground arith
div_ℤ_lem (pos a) (negsuc b) h = ground arith
div_ℤ_lem (negsuc a) (pos b) h = ground arith
div_ℤ_lem (negsuc a) (negsuc b) h = ground arith

pub *ℤ_parts :
    (a b : ℤ)
    → pos_part (a *ℤ b) + (pos_part a * neg_part b + neg_part a * pos_part b)
      ≡ neg_part (a *ℤ b) + (pos_part a * pos_part b + neg_part a * neg_part b)
unfolding ◌*ℤ◌
*ℤ_parts a b = ground arith

scale_pos : (a : ℤ) → pos_part (pos 42 *ℤ a) ≡ 42 * pos_part a
unfolding ◌*ℤ◌
scale_pos (pos n) = ground arith
scale_pos (negsuc n) = ground arith

scale_neg : (a : ℤ) → neg_part (pos 42 *ℤ a) ≡ 42 * neg_part a
unfolding ◌*ℤ◌
scale_neg (pos n) = ground arith
scale_neg (negsuc n) = ground arith

-- w * (42 * a) / 42
mul_div_cancel : (w a : ℤ) → div_ℤ (w *ℤ (pos 42 *ℤ a)) (pos 42) ≡ w *ℤ a
mul_div_cancel w a =
    let scaled = rw (scale_pos a, scale_neg a) at (*ℤ_parts w (pos 42 *ℤ a)) in
    div_ℤ_lem _ _ (omega (arith, scaled, *ℤ_parts w a))

-- Seven readings in a row, all of them numbers.
abbrev pub IsWindow : List (Option ℤ) → ℕ → (ℕ → ℤ) → Type 0
IsWindow xs start a = (j : ℕ) → j < 7 → get_or xs (start + j) none ≡ some (a j)

abbrev pub dot : (ℕ → ℤ) → ℕ → List ℤ → ℤ → ℤ
dot a j [] acc = acc
dot a j (w ∷ ws) acc = dot a (suc j) ws (acc +ℤ w *ℤ a j)

accumulate-dot :
    (xs : List (Option ℤ)) (start : ℕ) (a : ℕ → ℤ) (ws : List ℤ) (at j : ℕ) (acc : ℤ)
    → IsWindow xs start a
    → at ≡ start + j
    → j + length ws ≤ 7
    → accumulate fixed xs at ws acc ≡ dot a j ws acc
unfolding accumulate
accumulate-dot xs start a [] at j acc h e fits = refl
accumulate-dot xs start a (w ∷ ws) at j acc h e fits =
    let reading : get_or xs at none ≡ some (a j) =
      ap (λ i. get_or xs i none) e ∙ h j (omega arith) in
    rw (reading, mul_div_cancel w (a j))
      (accumulate-dot xs start a ws (at + 1) (suc j) (acc +ℤ w *ℤ a j) h (omega arith)
        (omega arith))

abbrev pub row_0 : List ℤ
row_0 = pos 32 ∷ pos 15 ∷ pos 3 ∷ negsuc 3 ∷ negsuc 5 ∷ negsuc 2 ∷ pos 5 ∷ []

abbrev pub row_1 : List ℤ
row_1 = pos 15 ∷ pos 12 ∷ pos 9 ∷ pos 6 ∷ pos 3 ∷ pos 0 ∷ negsuc 2 ∷ []

abbrev pub row_2 : List ℤ
row_2 = pos 3 ∷ pos 9 ∷ pos 12 ∷ pos 12 ∷ pos 9 ∷ pos 3 ∷ negsuc 5 ∷ []

abbrev pub row_3 : List ℤ
row_3 = negsuc 3 ∷ pos 6 ∷ pos 12 ∷ pos 14 ∷ pos 12 ∷ pos 6 ∷ negsuc 3 ∷ []

abbrev pub row_4 : List ℤ
row_4 = negsuc 5 ∷ pos 3 ∷ pos 9 ∷ pos 12 ∷ pos 12 ∷ pos 9 ∷ pos 3 ∷ []

abbrev pub row_5 : List ℤ
row_5 = negsuc 2 ∷ pos 0 ∷ pos 3 ∷ pos 6 ∷ pos 9 ∷ pos 12 ∷ pos 15 ∷ []

abbrev pub row_6 : List ℤ
row_6 = pos 5 ∷ negsuc 2 ∷ negsuc 5 ∷ negsuc 3 ∷ pos 3 ∷ pos 15 ∷ pos 32 ∷ []

pub rows :
    (weight_row fixed 0 ≡ row_0)
    × (weight_row fixed 1 ≡ row_1)
    × (weight_row fixed 2 ≡ row_2)
    × (weight_row fixed 3 ≡ row_3)
    × (weight_row fixed 4 ≡ row_4)
    × (weight_row fixed 5 ≡ row_5)
    × (weight_row fixed 6 ≡ row_6)
unfolding weight_row div_ℤ ◌*ℤ◌ ◌-ℤ◌
rows = (refl, refl, refl, refl, refl, refl, refl)

pub weighted_sum-dot :
    (xs : List (Option ℤ)) (start row : ℕ) (a : ℕ → ℤ) (ws : List ℤ)
    → IsWindow xs start a
    → weight_row fixed row ≡ ws
    → length ws ≤ 7
    → weighted_sum fixed xs start row ≡ dot a 0 ws (pos 0)
unfolding weighted_sum
weighted_sum-dot xs start row a ws h e fits =
    rw e (accumulate-dot xs start a ws start 0 (pos 0) h (omega arith) (omega arith))

abbrev pub IsRow0 : (ℕ → ℤ) → ℤ → Type 0
IsRow0 a y =
    pos_part y
      + 32 * neg_part (a 0)
      + 15 * neg_part (a 1)
      + 3 * neg_part (a 2)
      + 5 * neg_part (a 6)
      + 4 * pos_part (a 3)
      + 6 * pos_part (a 4)
      + 3 * pos_part (a 5)
    ≡ neg_part y
      + 32 * pos_part (a 0)
      + 15 * pos_part (a 1)
      + 3 * pos_part (a 2)
      + 5 * pos_part (a 6)
      + 4 * neg_part (a 3)
      + 6 * neg_part (a 4)
      + 3 * neg_part (a 5)

pub row_0_parts : (a : ℕ → ℤ) → IsRow0 a (dot a 0 row_0 (pos 0))
row_0_parts a = omega (arith, +ℤ_parts, *ℤ_parts)

abbrev pub IsRow1 : (ℕ → ℤ) → ℤ → Type 0
IsRow1 a y =
    pos_part y
      + 15 * neg_part (a 0)
      + 12 * neg_part (a 1)
      + 9 * neg_part (a 2)
      + 6 * neg_part (a 3)
      + 3 * neg_part (a 4)
      + 3 * pos_part (a 6)
    ≡ neg_part y
      + 15 * pos_part (a 0)
      + 12 * pos_part (a 1)
      + 9 * pos_part (a 2)
      + 6 * pos_part (a 3)
      + 3 * pos_part (a 4)
      + 3 * neg_part (a 6)

pub row_1_parts : (a : ℕ → ℤ) → IsRow1 a (dot a 0 row_1 (pos 0))
row_1_parts a = omega (arith, +ℤ_parts, *ℤ_parts)

abbrev pub IsRow2 : (ℕ → ℤ) → ℤ → Type 0
IsRow2 a y =
    pos_part y
      + 3 * neg_part (a 0)
      + 9 * neg_part (a 1)
      + 12 * neg_part (a 2)
      + 12 * neg_part (a 3)
      + 9 * neg_part (a 4)
      + 3 * neg_part (a 5)
      + 6 * pos_part (a 6)
    ≡ neg_part y
      + 3 * pos_part (a 0)
      + 9 * pos_part (a 1)
      + 12 * pos_part (a 2)
      + 12 * pos_part (a 3)
      + 9 * pos_part (a 4)
      + 3 * pos_part (a 5)
      + 6 * neg_part (a 6)

pub row_2_parts : (a : ℕ → ℤ) → IsRow2 a (dot a 0 row_2 (pos 0))
row_2_parts a = omega (arith, +ℤ_parts, *ℤ_parts)

abbrev pub IsRow3 : (ℕ → ℤ) → ℤ → Type 0
IsRow3 a y =
    pos_part y
      + 6 * neg_part (a 1)
      + 12 * neg_part (a 2)
      + 14 * neg_part (a 3)
      + 12 * neg_part (a 4)
      + 6 * neg_part (a 5)
      + 4 * pos_part (a 0)
      + 4 * pos_part (a 6)
    ≡ neg_part y
      + 6 * pos_part (a 1)
      + 12 * pos_part (a 2)
      + 14 * pos_part (a 3)
      + 12 * pos_part (a 4)
      + 6 * pos_part (a 5)
      + 4 * neg_part (a 0)
      + 4 * neg_part (a 6)

pub row_3_parts : (a : ℕ → ℤ) → IsRow3 a (dot a 0 row_3 (pos 0))
row_3_parts a = omega (arith, +ℤ_parts, *ℤ_parts)

abbrev pub IsRow4 : (ℕ → ℤ) → ℤ → Type 0
IsRow4 a y =
    pos_part y
      + 3 * neg_part (a 1)
      + 9 * neg_part (a 2)
      + 12 * neg_part (a 3)
      + 12 * neg_part (a 4)
      + 9 * neg_part (a 5)
      + 3 * neg_part (a 6)
      + 6 * pos_part (a 0)
    ≡ neg_part y
      + 3 * pos_part (a 1)
      + 9 * pos_part (a 2)
      + 12 * pos_part (a 3)
      + 12 * pos_part (a 4)
      + 9 * pos_part (a 5)
      + 3 * pos_part (a 6)
      + 6 * neg_part (a 0)

pub row_4_parts : (a : ℕ → ℤ) → IsRow4 a (dot a 0 row_4 (pos 0))
row_4_parts a = omega (arith, +ℤ_parts, *ℤ_parts)

abbrev pub IsRow5 : (ℕ → ℤ) → ℤ → Type 0
IsRow5 a y =
    pos_part y
      + 3 * neg_part (a 2)
      + 6 * neg_part (a 3)
      + 9 * neg_part (a 4)
      + 12 * neg_part (a 5)
      + 15 * neg_part (a 6)
      + 3 * pos_part (a 0)
    ≡ neg_part y
      + 3 * pos_part (a 2)
      + 6 * pos_part (a 3)
      + 9 * pos_part (a 4)
      + 12 * pos_part (a 5)
      + 15 * pos_part (a 6)
      + 3 * neg_part (a 0)

pub row_5_parts : (a : ℕ → ℤ) → IsRow5 a (dot a 0 row_5 (pos 0))
row_5_parts a = omega (arith, +ℤ_parts, *ℤ_parts)

abbrev pub IsRow6 : (ℕ → ℤ) → ℤ → Type 0
IsRow6 a y =
    pos_part y
      + 5 * neg_part (a 0)
      + 3 * neg_part (a 4)
      + 15 * neg_part (a 5)
      + 32 * neg_part (a 6)
      + 3 * pos_part (a 1)
      + 6 * pos_part (a 2)
      + 4 * pos_part (a 3)
    ≡ neg_part y
      + 5 * pos_part (a 0)
      + 3 * pos_part (a 4)
      + 15 * pos_part (a 5)
      + 32 * pos_part (a 6)
      + 3 * neg_part (a 1)
      + 6 * neg_part (a 2)
      + 4 * neg_part (a 3)

pub row_6_parts : (a : ℕ → ℤ) → IsRow6 a (dot a 0 row_6 (pos 0))
row_6_parts a = omega (arith, +ℤ_parts, *ℤ_parts)
