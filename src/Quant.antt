-- ===== src/Quant.antt =====
-- The conversions between `float` and `int8_t`: tensor/quantizer.cpp, tensor/tensor_converter.cpp,
-- tensor/int8_input_pack.cpp, tensor/int8_output_unpack.cpp and
-- optimization/quant/int8_quantizer.cpp. `none` is undefined behaviour: a conversion to `int` or an
-- `int` sum that is out of range, and an access past the end of an array.
pub mod Agreement
pub mod Tests
use pipe_ai_rk3588_industria.Prelude.{
  ℕ, zero, suc, ◌+◌, ◌-◌, ◌*◌, ◌%◌, ◌^◌, Bool, not, ◌&&◌, Option, none, some, List, [], ◌∷◌, ltb,
  if◌then◌else◌, length, bind,
}
use pipe_ai_rk3588_industria.Prelude.Int.{ℤ, pos, negsuc, ◌+ℤ◌, ◌-ℤ◌, ltb_ℤ}
use pipe_ai_rk3588_industria.Floats.{Floats}

-- The residue modulo 2 ^ w, and the w-bit signed integer with that residue, `static_cast`.
abbrev pub residue : ℕ → ℤ → ℕ
residue w (pos n) = n % 2 ^ w
residue w (negsuc n) = 2 ^ w - 1 - n % 2 ^ w

abbrev pub signed : ℕ → ℤ → ℤ
signed w x =
    if ltb (residue w x * 2) (2 ^ w) then pos (residue w x) else negsuc (2 ^ w - 1 - residue w x)

unfoldable pub to_int8 : ℤ → ℤ
to_int8 x = signed 8 x

-- An `int` or a `long` as it is computed, where it has to be in range.
unfoldable pub in_bits : ℕ → ℤ → Bool
in_bits w x = not (ltb_ℤ x (negsuc (2 ^ (w - 1) - 1))) && ltb_ℤ x (pos (2 ^ (w - 1)))

unfoldable pub checked : ℕ → ℤ → Option ℤ
checked w x = if in_bits w x then some x else none

-- `std::min` and `std::max`.
abbrev pub min_ℤ : ℤ → ℤ → ℤ
min_ℤ a b = if ltb_ℤ b a then b else a

abbrev pub max_ℤ : ℤ → ℤ → ℤ
max_ℤ a b = if ltb_ℤ a b then b else a

abbrev pub int8_max : ℤ
int8_max = pos 127

abbrev pub int8_min : ℤ
int8_min = negsuc 127

-- `max(-128, min(127, x))`, and the two tests of the other variants.
unfoldable pub clamp_minmax : ℤ → ℤ
clamp_minmax x = max_ℤ int8_min (min_ℤ int8_max x)

abbrev pub cut_above : ℤ → ℤ
cut_above v = if ltb_ℤ int8_max v then int8_max else v

unfoldable pub clamp_tests : ℤ → ℤ
clamp_tests v = let cut = cut_above v in if ltb_ℤ cut int8_min then int8_min else cut

-- A loop over the first `n` elements of an array, which writes `f` of each to `dst`.
unfoldable pub convert {ℓ κ} :
    {A : Type ℓ} {B : Type κ} → (A → Option B) → List A → ℕ → List B → Option (List B)
convert f src zero dst = some dst
convert f (x ∷ src) (suc n) (d ∷ dst) =
    let rest = convert f src n dst in bind (f x) (λ y. bind rest (λ ys. some (y ∷ ys)))
convert f [] (suc n) dst = none
convert f (x ∷ src) (suc n) [] = none

-- `out.resize(n)`, where `d` is what a new element is.
abbrev pub resize {ℓ} : {A : Type ℓ} → A → List A → ℕ → List A
resize d out zero = []
resize d [] (suc n) = d ∷ resize d [] n
resize d (x ∷ out) (suc n) = x ∷ resize d out n

-- The loops with an `int` for the size run no round for a negative size.
abbrev pub rounds : ℤ → ℕ
rounds (pos n) = n
rounds (negsuc n) = 0

module _ (fl : Floats) where
  pub record Quantizer : Type 0 where
    pub scale : fl.F
    pub zero_point : ℤ

-- `round` is the whole number that `std::round` and `std::lround` give, `none` for a NaN or an
-- infinity.
module _ (fl : Floats) (round : fl.F → Option ℤ) where
  open fl use {F, div}

  -- `static_cast<int>(std::round(v / scale))`.
  abbrev pub round_int : F → F → Option ℤ
  round_int v scale = bind (round (div v scale)) (checked 32)

  -- `(int)std::lround(x / scale)`.
  abbrev pub lround_int : F → F → Option ℤ
  lround_int x scale =
      bind (round (div x scale)) (λ r. bind (checked 64 r) (λ l. some (signed 32 l)))

  unfoldable pub quantize : Quantizer fl → F → Option ℤ
  quantize q v =
      bind (round_int v q.scale)
        (λ r. bind (checked 32 (r +ℤ q.zero_point)) (λ x. some (to_int8 (clamp_minmax x))))

  -- `Quantizer::quantize` of a vector.
  unfoldable pub quantize_all : Quantizer fl → List F → List ℤ → Option (List ℤ)
  quantize_all q input out =
      convert (quantize q) input (length input) (resize (pos 0) out (length input))

  -- `TensorConverter::floatToInt8`.
  unfoldable pub float_to_int8 : List F → List ℤ → ℕ → F → ℤ → Option (List ℤ)
  float_to_int8 src dst n scale zp =
      convert
        (λ s.
          bind (round_int s scale)
            (λ r. bind (checked 32 (r +ℤ zp)) (λ q. some (to_int8 (clamp_minmax q)))))
        src n dst

  unfoldable pub pack_float_to_int8 : List F → List ℤ → ℤ → F → ℤ → Option (List ℤ)
  pack_float_to_int8 src dst size scale zp =
      convert
        (λ s.
          bind (round_int s scale)
            (λ r. bind (checked 32 (r +ℤ zp)) (λ v. some (to_int8 (clamp_tests v)))))
        src (rounds size) dst

  unfoldable pub quantize_int8 : F → F → ℤ → Option ℤ
  quantize_int8 x scale zp =
      bind (lround_int x scale)
        (λ r. bind (checked 32 (r +ℤ zp)) (λ q. some (to_int8 (clamp_tests q))))

-- `of_int` is the conversion of an `int` to `float`.
module _ (fl : Floats) (of_int : ℤ → fl.F) where
  open fl use {F, mul}

  unfoldable pub dequantize : Quantizer fl → ℤ → Option F
  dequantize q v = bind (checked 32 (v -ℤ q.zero_point)) (λ d. some (mul (of_int d) q.scale))

  -- `TensorConverter::int8ToFloat`.
  unfoldable pub int8_to_float : List ℤ → List F → ℕ → F → ℤ → Option (List F)
  int8_to_float src dst n scale zp =
      convert (λ s. bind (checked 32 (s -ℤ zp)) (λ d. some (mul (of_int d) scale))) src n dst

  unfoldable pub dequant_int8 : List ℤ → List F → ℤ → F → ℤ → Option (List F)
  dequant_int8 input output size scale zero_point =
      convert (λ s. bind (checked 32 (s -ℤ zero_point)) (λ d. some (mul (of_int d) scale))) input
        (rounds size) output

  unfoldable pub dequantize_int8 : ℤ → F → ℤ → Option F
  dequantize_int8 x scale zp = bind (checked 32 (x -ℤ zp)) (λ d. some (mul (of_int d) scale))
