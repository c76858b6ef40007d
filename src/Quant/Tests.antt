-- ===== src/Quant/Tests.antt =====
-- The conversions at concrete inputs.
use pipe_ai_rk3588_industria.Prelude.{◌≡◌, refl, Option, some, [], ◌∷◌}
use pipe_ai_rk3588_industria.Quant.Agreement.{arrays_agree}
use pipe_ai_rk3588_industria.Floats.Fixed.{fixed, div_ℤ}
use pipe_ai_rk3588_industria.Prelude.Int.{ℤ, pos, negsuc, ◌+ℤ◌}
use pipe_ai_rk3588_industria.Quant.{
  to_int8, in_bits, checked, clamp_minmax, Quantizer, quantize, quantize_all, resize, float_to_int8,
  pack_float_to_int8,
}

abbrev same : Option ℤ → Option ℤ
same x = x

abbrev of_three : Quantizer fixed
of_three = record { scale = some (pos 3); zero_point = negsuc 4 }

-- 600 / 3 - 5 is above the range.
saturates : quantize fixed same of_three (some (pos 600)) ≡ some (pos 127)
unfolding quantize checked in_bits to_int8 clamp_minmax div_ℤ ◌+ℤ◌
saturates = refl

arrays_agree_example :
    (float_to_int8 fixed same
        (some (pos 9) ∷ some (negsuc 899) ∷ [])
        (pos 0 ∷ pos 0 ∷ pos 7 ∷ [])
        2
        (some (pos 3))
        (pos 1)
      ≡ pack_float_to_int8 fixed same
          (some (pos 9) ∷ some (negsuc 899) ∷ [])
          (pos 0 ∷ pos 0 ∷ pos 7 ∷ [])
          (pos 2)
          (some (pos 3))
          (pos 1))
    × (quantize_all fixed same
          (record { scale = some (pos 3); zero_point = pos 1 })
          (some (pos 9) ∷ some (negsuc 899) ∷ [])
          []
        ≡ float_to_int8 fixed same
            (some (pos 9) ∷ some (negsuc 899) ∷ [])
            (resize (pos 0) [] 2)
            2
            (some (pos 3))
            (pos 1))
arrays_agree_example =
    arrays_agree fixed same (some (pos 9) ∷ some (negsuc 899) ∷ []) (pos 0 ∷ pos 0 ∷ pos 7 ∷ []) []
      2 (some (pos 3)) (pos 1)
