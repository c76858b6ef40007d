-- ===== src/Quant/Agreement.antt =====
-- The variants of the conversion to `int8_t` against one another.
use pipe_ai_rk3588_industria.Prelude.{
  ℕ, zero, suc, ◌≡◌, refl, true, Option, some, List, [], ◌∷◌, arith, length, bind, bind-some,
  bind_congr,
}
use pipe_ai_rk3588_industria.Prelude.Int.{ℤ, pos, ◌+ℤ◌, ◌≤ℤ◌}
use pipe_ai_rk3588_industria.Floats.{Floats}
use pipe_ai_rk3588_industria.Quant.{
  to_int8, in_bits, checked, clamp_minmax, clamp_tests, convert, round_int, Quantizer, quantize,
  quantize_all, resize, float_to_int8, pack_float_to_int8, quantize_int8, signed, int8_min,
  int8_max,
}

pub clamp_agrees : (x : ℤ) → clamp_tests x ≡ clamp_minmax x
unfolding clamp_tests clamp_minmax
clamp_agrees x = ground arith

pub clamp_range : (x : ℤ) → (int8_min ≤ℤ clamp_minmax x) × (clamp_minmax x ≤ℤ int8_max)
unfolding clamp_minmax
clamp_range x = (ground arith, ground arith)

pub to_int8_small : (x : ℤ) → int8_min ≤ℤ x → x ≤ℤ int8_max → to_int8 x ≡ x
unfolding to_int8
to_int8_small x h k = ground arith

pub signed_small : (x : ℤ) → in_bits 32 x ≡ true → signed 32 x ≡ x
unfolding in_bits
signed_small x h = ground arith

in_bits_wider : (x : ℤ) → in_bits 32 x ≡ true → in_bits 64 x ≡ true
unfolding in_bits
in_bits_wider x h = ground arith

checked-some : (w : ℕ) (x y : ℤ) → checked w x ≡ some y → (in_bits w x ≡ true) × (x ≡ y)
unfolding checked
checked-some w x y h = ground arith

checked_wider :
    (x y : ℤ) → checked 32 x ≡ some y → bind (checked 64 x) (λ r. some (signed 32 r)) ≡ some y
unfolding checked
checked_wider x y h =
    let (b, e) = checked-some 32 x y h in rw (in_bits_wider x b, signed_small x b, e)

pub convert_congr {ℓ κ} :
    {A : Type ℓ} {B : Type κ} (f g : A → Option B) (src : List A) (n : ℕ) (dst : List B)
    → ((a : A) → f a ≡ g a)
    → convert f src n dst ≡ convert g src n dst
unfolding convert
convert_congr f g src zero dst h = refl
convert_congr f g [] (suc n) dst h = refl
convert_congr f g (x ∷ src) (suc n) [] h = refl
convert_congr f g (x ∷ src) (suc n) (d ∷ dst) h = rw (h x, convert_congr f g src n dst h)

packed_byte : (v : ℤ) → some (to_int8 (clamp_minmax v)) ≡ some (to_int8 (clamp_tests v))
packed_byte v = rw (clamp_agrees v)

packed_range :
    (s x : ℤ) → some (to_int8 (clamp_minmax s)) ≡ some x → (int8_min ≤ℤ x) × (x ≤ℤ int8_max)
packed_range s x h =
    let (a, b) = clamp_range s in
    let e : to_int8 (clamp_minmax s) ≡ clamp_minmax s = to_int8_small (clamp_minmax s) a b in
    let e' : x ≡ clamp_minmax s = cc in (rw e' a, rw e' b)

module _ (fl : Floats) (round : fl.F → Option ℤ) where
  -- One reading, packed with the tests or with `std::max` and `std::min`.
  packed_agrees :
      (scale : fl.F) (zp : ℤ) (s : fl.F)
      → bind
          (round_int fl round s scale)
          (λ r. bind (checked 32 (r +ℤ zp)) (λ v. some (to_int8 (clamp_minmax v))))
        ≡ bind
            (round_int fl round s scale)
            (λ r. bind (checked 32 (r +ℤ zp)) (λ v. some (to_int8 (clamp_tests v))))
  packed_agrees scale zp s =
      bind_congr (round_int fl round s scale) _ _
        (λ r. bind_congr (checked 32 (r +ℤ zp)) _ _ packed_byte)

  -- `TensorConverter::floatToInt8` and `pack_float_to_int8` write the same bytes, and
  -- `Quantizer::quantize` of a whole vector gives what they write to a vector of its length.
  pub arrays_agree :
      (src : List fl.F) (dst out : List ℤ) (n : ℕ) (scale : fl.F) (zp : ℤ)
      → (float_to_int8 fl round src dst n scale zp
          ≡ pack_float_to_int8 fl round src dst (pos n) scale zp)
        × (quantize_all fl round (record { scale = scale; zero_point = zp }) src out
            ≡ float_to_int8 fl round src (resize (pos 0) out (length src)) (length src) scale zp)
  unfolding float_to_int8 pack_float_to_int8 quantize_all quantize
  arrays_agree src dst out n scale zp = (convert_congr _ _ src n dst (packed_agrees scale zp), refl)

  -- Where `Quantizer::quantize` of a value is defined, the byte is in range and `quantize_int8`
  -- gives the same byte.
  quantize_agrees :
      (q : Quantizer fl) (v : fl.F) (x : ℤ)
      → quantize fl round q v ≡ some x
      → (int8_min ≤ℤ x) × (x ≤ℤ int8_max) × (quantize_int8 fl round v q.scale q.zero_point ≡ some x)
  unfolding quantize quantize_int8
  quantize_agrees q v x h =
      let (r, hr, k) = bind-some (round_int fl round v q.scale) _ x h in
      let (s, hs, e) = bind-some (checked 32 (r +ℤ q.zero_point)) _ x k in
      let (r0, h0, c) = bind-some (round (fl.div v q.scale)) _ r hr in
      let (a, b) = packed_range s x e in
      (a, b, rw (h0, checked_wider r0 r c, hs, clamp_agrees s, e))
