-- ===== src/Sensor/Tests.antt =====
-- The sensor on two samples and a header, with numbers printed in unary.
use pipe_ai_rk3588_industria.Prelude.{
  ℕ, zero, suc, ◌≡◌, refl, true, Option, none, some, List, [], ◌∷◌, ◌++◌, map, arith, ◌==◌,
  if◌then◌else◌, length, replicate,
}
use pipe_ai_rk3588_industria.Prelude.Int.{ℤ, pos, negsuc}
use pipe_ai_rk3588_industria.Floats.Fixed.{fixed}
use pipe_ai_rk3588_industria.Text.{Bytes, codes}
use pipe_ai_rk3588_industria.Types.{RawSample}
use pipe_ai_rk3588_industria.Sensor.{
  Extracted, got, missed, CsvSensor, read_all, open_file, new_sensor,
}
use pipe_ai_rk3588_industria.Sensor.Replay.{success_of}
use pipe_ai_rk3588_industria.Sensor.Written.{
  IsBehind, IsLetter, Extracts, write_sample, read_all-write,
}

abbrev pub one : ℕ
one = b'1'

-- A dot, and as many ones as the number says.
abbrev pub print_number : ℕ → Bytes
print_number n = b'.' ∷ replicate n one

abbrev pub print : Option ℤ → Bytes
print none = b'n' ∷ []
print (some (pos n)) = b'+' ∷ replicate n one
print (some (negsuc n)) = b'-' ∷ replicate n one

abbrev pub ones : Bytes → ℕ × Bytes
ones [] = (0, [])
ones (c ∷ s) = let (n, rest) = ones s in if c == one then (suc n, rest) else (0, c ∷ s)

abbrev pub take_number : Bytes → Extracted ℕ
take_number [] = missed none
take_number (c ∷ s) = let (n, rest) = ones s in if c == b'.' then got n rest else missed (some 0)

abbrev pub take_float : Bytes → Extracted (Option ℤ)
take_float [] = missed none
take_float (c ∷ s) =
    let (n, rest) = ones s in
    if c == b'+'
    then got (some (pos n)) rest
    else if c == b'-'
    then got (some (negsuc n)) rest
    else missed (some (some (pos 0)))

ones_behind : (rest : Bytes) → IsBehind fixed take_number take_float rest → ones rest ≡ (0, rest)
ones_behind [] h = refl
ones_behind (c ∷ rest) h = rw h

ones_back :
    (n : ℕ) (rest : Bytes)
    → IsBehind fixed take_number take_float rest
    → ones (replicate n one ++ rest) ≡ (n, rest)
ones_back zero rest h = ones_behind rest h
ones_back (suc n) rest h = rw (ones_back n rest h)

float_back :
    (x : Option ℤ) (rest : Bytes)
    → fixed.is_finite x ≡ true
    → IsBehind fixed take_number take_float rest
    → take_float (print x ++ rest) ≡ got x rest
float_back none rest f h = cc
float_back (some (pos n)) rest f h = rw (ones_back n rest h)
float_back (some (negsuc n)) rest f h = rw (ones_back n rest h)

letter_missed :
    (c : ℕ) (s : Bytes)
    → IsLetter fixed take_number take_float c
    → success_of fixed take_number take_float (take_number (c ∷ s)) ≡ none
letter_missed c s h = ground arith

unary-Extracts : Extracts fixed take_number take_float print_number print
unary-Extracts = record {
  number_back = λ n rest bits h. rw (ones_back n rest h);
  float_back = float_back;
  letter_missed = letter_missed;
}

abbrev pub first : RawSample fixed
first = record { timestamp_ns = 7; radar = replicate 8 (some (pos 2)); imu = some (negsuc 0) }

abbrev second : RawSample fixed
second = record { timestamp_ns = 8; radar = replicate 8 (some (pos 3)); imu = some (pos 0) }

abbrev both : List (RawSample fixed)
both = first ∷ second ∷ []

abbrev pub written : RawSample fixed → Bytes
written = write_sample fixed take_number take_float print_number print

read_all-write_example :
    ((open_file (some (map written both)) new_sensor).0 ≡ true)
    × (read_all fixed take_number take_float 3
          (open_file (some (map written both)) new_sensor).1
          second
        ≡ both)
    × ((c : ℕ) (line : Bytes) (lines : List Bytes)
        → IsLetter fixed take_number take_float c
        → let file = map written both ++ ((c ∷ line) ∷ lines) in
          read_all fixed take_number take_float
            (suc (length file))
            (open_file (some file) new_sensor).1
            second
          ≡ both)
read_all-write_example =
    read_all-write fixed take_number take_float print_number print unary-Extracts both second
      (
        (
          omega arith,
          refl,
          (refl, (refl, (refl, (refl, (refl, (refl, (refl, (refl, tt)))))))),
          refl,
        ),
        (
          (
            omega arith,
            refl,
            (refl, (refl, (refl, (refl, (refl, (refl, (refl, (refl, tt)))))))),
            refl,
          ),
          tt,
        ),
      )
      refl

abbrev waiting : CsvSensor
waiting = record { opened = true; good = true; lines = written first ∷ codes "timestamp" ∷ [] }
