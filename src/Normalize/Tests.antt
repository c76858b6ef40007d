-- ===== src/Normalize/Tests.antt =====
-- The loops at concrete inputs, with vectors of four numbers.
use pipe_ai_rk3588_industria.Prelude.{◌≡◌, refl, Option, some, List, [], ◌∷◌}
use pipe_ai_rk3588_industria.Normalize.Lanes.{IsLanewise, normalize_agrees}
use pipe_ai_rk3588_industria.Normalize.{Neon, scalar_loop, neon_normalize, normalize_dispatch}
use pipe_ai_rk3588_industria.Floats.Fixed.{fixed}
use pipe_ai_rk3588_industria.Prelude.Int.{ℤ, pos}

abbrev Number : Type 0
Number = Option ℤ

abbrev Four : Type 0
Four = Number × Number × Number × Number

abbrev lanewise : (Number → Number → Number) → Four → Four → Four
lanewise f (a, b, c, d) (x, y, z, w) = (f a x, f b y, f c z, f d w)

abbrev in_memory : Four → List Number
in_memory (a, b, c, d) = a ∷ b ∷ c ∷ d ∷ []

abbrev four_lanes : Neon Number
four_lanes = record {
  V = Four;
  vdupq_n = λ x. (x, x, x, x);
  vld1q = λ a b c d. (a, b, c, d);
  vsubq = lanewise fixed.sub;
  vmulq = lanewise fixed.mul;
  vst1q = in_memory;
}

four_lanes-IsLanewise : IsLanewise fixed four_lanes
four_lanes-IsLanewise = record {
  stores = λ a b c d. refl;
  subtracts = λ a b c d m. refl;
  multiplies = λ a b c d s. refl;
}

abbrev five : List Number
five = some (pos 1) ∷ some (pos 2) ∷ some (pos 3) ∷ some (pos 4) ∷ some (pos 5) ∷ []

normalize_agrees_example :
    (neon_normalize fixed four_lanes five five 5 (some (pos 2)) (some (pos 3))
      ≡ scalar_loop fixed (some (pos 2)) (some (pos 3)) five 5 five)
    × (normalize_dispatch fixed four_lanes five five (pos 5) (some (pos 2)) (some (pos 3))
        ≡ scalar_loop fixed (some (pos 2)) (some (pos 3)) five 5 five)
normalize_agrees_example =
    normalize_agrees fixed four_lanes four_lanes-IsLanewise five five 5 (some (pos 2))
      (some (pos 3))
