-- ===== src/Csv/Tests.antt =====
-- A short CSV file, and the theorems about the adapter at it.
use pipe_ai_rk3588_industria.Prelude.{
  ℕ, ◌+◌, ◌-◌, ◌*◌, ◌≡◌, refl, ap, ◌≢◌, true, ◌&&◌, Option, none, some, List, [], ◌∷◌, leb,
  if◌then◌else◌,
}
use pipe_ai_rk3588_industria.Prelude.Int.{ℤ, pos}
use pipe_ai_rk3588_industria.Text.{Bytes, codes, same_bytes, decimal}
use pipe_ai_rk3588_industria.Floats.Fixed.{fixed}
use pipe_ai_rk3588_industria.Types.{RawSample}
use pipe_ai_rk3588_industria.Status.{is_ok, success}
use pipe_ai_rk3588_industria.Csv.{
  read, read_rows, parse_row, parse_radar, parse_float, radar_columns, find_column, split_line,
  scan, scan_char,
}
use pipe_ai_rk3588_industria.Csv.Lines.{bare, in_quotes, write_line, split_line-write_line}
use pipe_ai_rk3588_industria.Csv.Rows.{IsNumbered, read-IsNumbered}

-- A stand-in for `std::strtof` that takes digits only.
unfoldable digits : ℕ → Bytes → ℕ × ℕ
digits n [] = (n, 0)
digits n (c ∷ cs) =
    let (m, taken) = digits (n * 10 + (c - 48)) cs in
    if leb 48 c && leb c 57 then (m, taken + 1) else (n, 0)

abbrev strtof : Bytes → Option ℤ × ℕ
strtof s = (some (pos (digits 0 s).0), (digits 0 s).1)

abbrev lines : List Bytes
lines =
    codes "D1,D2,D3,D4,D5,D6,D7,D8,IMU"
    ∷ codes "201,202,203,204,,206,207,\"208\",7\r"
    ∷ codes "  "
    ∷ codes "1,2,3,4,5,6,7,8,9"
    ∷ []

abbrev samples : List (RawSample fixed)
samples =
    record {
      timestamp_ns = 0;
      radar =
          some (pos 201)
          ∷ some (pos 202)
          ∷ some (pos 203)
          ∷ some (pos 204)
          ∷ none
          ∷ some (pos 206)
          ∷ some (pos 207)
          ∷ some (pos 208)
          ∷ [];
      imu = some (pos 7);
    }
    ∷ record {
      timestamp_ns = 1;
      radar =
          some (pos 1)
          ∷ some (pos 2)
          ∷ some (pos 3)
          ∷ some (pos 4)
          ∷ some (pos 5)
          ∷ some (pos 6)
          ∷ some (pos 7)
          ∷ some (pos 8)
          ∷ [];
      imu = some (pos 9);
    }
    ∷ []

reads : read fixed strtof (codes "a.csv") (some lines) [] ≡ (success, samples)
unfolding read read_rows parse_row parse_radar parse_float radar_columns find_column split_line scan
    scan_char digits same_bytes decimal
reads = refl

read_ok : is_ok (read fixed strtof (codes "a.csv") (some lines) []).0 ≡ true
read_ok = ap (λ r. is_ok r.0) reads

read-IsNumbered_example :
    ((read fixed strtof (codes "a.csv") (some lines) []).1 ≢ [])
    × IsNumbered fixed strtof 0 (read fixed strtof (codes "a.csv") (some lines) []).1
read-IsNumbered_example = read-IsNumbered fixed strtof (codes "a.csv") (some lines) [] read_ok

split_line-write_line_example :
    split_line (write_line (bare (codes "a b")) (in_quotes (codes "x,\"y\"") ∷ bare [] ∷ []))
    ≡ (success, codes "a b" ∷ codes "x,\"y\"" ∷ [] ∷ [])
split_line-write_line_example =
    split_line-write_line (bare (codes "a b")) (in_quotes (codes "x,\"y\"") ∷ bare [] ∷ [])
      ((refl, refl, (refl, refl, (refl, refl, tt))), (tt, (tt, tt)))
