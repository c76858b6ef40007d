-- ===== src/Csv/Rows.antt =====
-- What a successful read of a CSV file gives (preprocess/csv_reader.cpp).
use pipe_ai_rk3588_industria.Prelude.{
  ℕ, zero, suc, ◌+◌, ◌≡◌, refl, ◌∙◌, ◌≢◌, inl, inr, true, Option, none, some, List, [], ◌∷◌, ◌++◌,
  arith, Bool-cases, Option-cases, length,
}
use pipe_ai_rk3588_industria.Text.{Bytes, codes, is_empty}
use pipe_ai_rk3588_industria.Status.{Status, is_ok}
use pipe_ai_rk3588_industria.Types.{RawSample, radar_channels}
use pipe_ai_rk3588_industria.Floats.{Floats}
use pipe_ai_rk3588_industria.Csv.{
  parse_radar, parse_row, read_rows, read, radar_columns, find_column, split_line, chomp, trim,
  drop_bom, some_rows,
}

length-radar_columns :
    (headers : List Bytes) (ch n : ℕ)
    → is_ok (radar_columns headers ch n).0 ≡ true
    → length (radar_columns headers ch n).1 ≡ n
unfolding radar_columns
length-radar_columns headers ch zero h = refl
length-radar_columns headers ch (suc n) h = ground (arith, length-radar_columns headers (ch + 1) n)

module _ (fl : Floats) (strtof : Bytes → fl.F × ℕ) where
  -- Samples `k`, `k + 1`, ..., each with a value of every channel.
  abbrev pub IsNumbered : ℕ → List (RawSample fl) → Type 0
  IsNumbered k [] = Unit {0}
  IsNumbered k (s ∷ samples) =
      (s.timestamp_ns ≡ k) × (length s.radar ≡ radar_channels) × IsNumbered (k + 1) samples

  IsNumbered-append :
      (k : ℕ) (samples : List (RawSample fl)) (s : RawSample fl)
      → IsNumbered k samples
      → s.timestamp_ns ≡ k + length samples
      → length s.radar ≡ radar_channels
      → IsNumbered k (samples ++ (s ∷ []))
  IsNumbered-append k [] s h e l = (omega arith, l, tt)
  IsNumbered-append k (x ∷ samples) s (a, b, h) e l =
      (a, b, IsNumbered-append (k + 1) samples s h (omega arith) l)

  length-parse_radar :
      (fields : List Bytes) (line_no ch : ℕ) (columns : List ℕ)
      → is_ok (parse_radar fl strtof fields line_no ch columns).0 ≡ true
      → length (parse_radar fl strtof fields line_no ch columns).1 ≡ length columns
  unfolding parse_radar
  length-parse_radar fields line_no ch [] h = refl
  length-parse_radar fields line_no ch (c ∷ columns) h =
      ground (arith, length-parse_radar fields line_no (ch + 1) columns)

  parse_row_lem :
      (columns : List ℕ) (imu line_no n : ℕ) (line : Bytes)
      → let (status, s) = parse_row fl strtof columns imu line_no n line in
        is_ok status ≡ true → (s.timestamp_ns ≡ n) × (length s.radar ≡ length columns)
  unfolding parse_row
  parse_row_lem columns imu line_no n line h =
      let fields = (split_line line).1 in
      ground (arith, length-parse_radar fields line_no 0 columns)

  read_rows-IsNumbered :
      (columns : List ℕ) (imu line_no : ℕ) (lines : List Bytes) (samples : List (RawSample fl))
      → length columns ≡ radar_channels
      → IsNumbered 0 samples
      → IsNumbered 0 (read_rows fl strtof columns imu line_no lines samples).1
  unfolding read_rows
  read_rows-IsNumbered columns imu line_no [] samples l h = h
  read_rows-IsNumbered columns imu line_no (x ∷ lines) samples l h =
      let line = chomp x in
      let row = parse_row fl strtof columns imu (line_no + 1) (length samples) line in
      elim (Bool-cases (is_empty (trim line))) [
        | inl blank ↦ rw blank (read_rows-IsNumbered columns imu (line_no + 1) lines samples l h)
        | inr full ↦ elim (Bool-cases (is_ok row.0)) [
          | inr bad ↦ rw (full, bad) h
          | inl good ↦
              let (t, r) = parse_row_lem columns imu (line_no + 1) (length samples) line good in
              rw (full, good)
                (read_rows-IsNumbered columns imu (line_no + 1) lines (samples ++ (row.1 ∷ [])) l
                  (IsNumbered-append 0 samples row.1 h (omega (arith, t)) (r ∙ l)))
        ]
      ]

  abbrev pub IsGood : Status × List (RawSample fl) → Type 0
  IsGood (status, samples) = is_ok status ≡ true → (samples ≢ []) × IsNumbered 0 samples

  some_rows-IsGood :
      (path : Bytes) (status : Status) (samples : List (RawSample fl))
      → IsNumbered 0 samples
      → IsGood (some_rows fl strtof path (status, samples))
  some_rows-IsGood path status [] h ok = ground arith
  some_rows-IsGood path status (s ∷ samples) h ok = (λ e. ground arith, h)

  read-IsGood :
      (path : Bytes) (file : Option (List Bytes)) (before : List (RawSample fl))
      → IsGood (read fl strtof path file before)
  unfolding read
  read-IsGood path none before = λ h. ground arith
  read-IsGood path (some []) before = λ h. ground arith
  read-IsGood path (some (x ∷ lines)) before =
      let head = split_line (drop_bom (chomp x)) in
      let columns = radar_columns head.1 0 radar_channels in
      elim (Bool-cases (is_ok head.0)) [
        | inr bad ↦ rw bad (λ h. ground (arith, bad))
        | inl fine ↦ elim (Bool-cases (is_ok columns.0)) [
          | inr bad ↦ rw (fine, bad) (λ h. ground (arith, bad))
          | inl all_there ↦ elim (Option-cases (find_column (codes "IMU") 0 head.1)) [
            | inl absent ↦ rw (fine, all_there, absent) (λ h. ground arith)
            | inr (imu, found) ↦
                rw (fine, all_there, found)
                  (some_rows-IsGood path (read_rows fl strtof columns.1 imu 1 lines []).0
                    (read_rows fl strtof columns.1 imu 1 lines []).1
                    (read_rows-IsNumbered columns.1 imu 1 lines []
                      (length-radar_columns head.1 0 radar_channels all_there) tt))
          ]
        ]
      ]

  -- A read that succeeds gives at least one sample; the samples carry their row's number, from 0
  -- and without a gap, as their timestamp, and each has a value for every radar channel.
  pub read-IsNumbered :
      (path : Bytes) (file : Option (List Bytes)) (before : List (RawSample fl))
      → let (status, samples) = read fl strtof path file before in
        is_ok status ≡ true → (samples ≢ []) × IsNumbered 0 samples
  read-IsNumbered path file before h = read-IsGood path file before h
