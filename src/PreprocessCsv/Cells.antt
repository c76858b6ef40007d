-- ===== src/PreprocessCsv/Cells.antt =====
-- The cells that the program prints: tools/preprocess_csv.cpp.
use pipe_ai_rk3588_industria.Prelude.{
  ℕ, ◌≡◌, refl, false, [], ◌∷◌, ◌++◌, arith, ◌==◌, length, get_or, All,
}
use pipe_ai_rk3588_industria.Floats.{Floats}
use pipe_ai_rk3588_industria.Text.{Bytes, is_empty, trim_start, trim_end}
use pipe_ai_rk3588_industria.Csv.{comma, quote, is_blank, trim, chomp}
use pipe_ai_rk3588_industria.Csv.Lines.{IsPlain}

-- A character within a cell that has neither blanks nor quotes.
abbrev pub IsSolid : ℕ → Type 0
IsSolid c = ((c == comma) ≡ false) × ((c == quote) ≡ false) × (is_blank c ≡ false)

-- What is used of the printing of a value with nine digits and of `std::strtof`.
pub record Prints (fl : Floats) (print : fl.F → Bytes) (strtof : Bytes → fl.F × ℕ) : Type 0 where
  pub some_text : (x : fl.F) → is_empty (print x) ≡ false
  pub solid : (x : fl.F) → All IsSolid (print x)
  pub reads_back : (x : fl.F) → strtof (print x) ≡ (x, length (print x))

pub solid-IsPlain : (s : Bytes) → All IsSolid s → IsPlain s
solid-IsPlain [] h = tt
solid-IsPlain (c ∷ s) ((a, b, d), h) = (a, b, solid-IsPlain s h)

pub trim_start_solid : (s : Bytes) → All IsSolid s → trim_start is_blank s ≡ s
trim_start_solid [] h = refl
trim_start_solid (c ∷ s) ((a, b, d), h) = rw d

pub trim_end_solid : (s : Bytes) → All IsSolid s → trim_end is_blank s ≡ s
trim_end_solid [] h = refl
trim_end_solid (c ∷ s) ((a, b, d), h) = rw (d, trim_end_solid s h)

pub trim_solid : (s : Bytes) → All IsSolid s → trim s ≡ s
trim_solid s h = rw (trim_start_solid s h, trim_end_solid s h)

pub trim_starts :
    (s rest : Bytes) → is_empty s ≡ false → All IsSolid s → is_empty (trim (s ++ rest)) ≡ false
trim_starts [] rest e h = ground arith
trim_starts (c ∷ s) rest e ((a, b, d), h) = rw (d, d)

-- No end of a line.
abbrev pub IsUncut : ℕ → Type 0
IsUncut c = ((c == 13) ≡ false) × ((c == 10) ≡ false)

pub chomp_uncut : (s : Bytes) → All IsUncut s → chomp s ≡ s
chomp_uncut [] h = refl
chomp_uncut (c ∷ s) ((a, b), h) = rw (a, chomp_uncut s h)

pub All-append : (s rest : Bytes) → All IsUncut s → All IsUncut rest → All IsUncut (s ++ rest)
All-append [] rest h k = k
All-append (c ∷ s) rest (a, h) k = (a, All-append s rest h k)

pub solid-IsUncut : (s : Bytes) → All IsSolid s → All IsUncut s
solid-IsUncut [] h = tt
solid-IsUncut (c ∷ s) ((a, b, d), h) = ((ground arith, ground arith), solid-IsUncut s h)

pub get_or_end : (s : Bytes) → get_or s (length s) 0 ≡ 0
get_or_end [] = refl
get_or_end (c ∷ s) = get_or_end s

pub length_some : (s : Bytes) → is_empty s ≡ false → (length s == 0) ≡ false
length_some s h = ground arith
