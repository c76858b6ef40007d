-- ===== src/PreprocessCsv/Written.antt =====
-- The table that the program prints, as the reader of CSV files reads it
-- (tools/preprocess_csv.cpp, preprocess/csv_reader.cpp).
use pipe_ai_rk3588_industria.Prelude.{
  ℕ, zero, suc, ◌+◌, ◌≡◌, refl, sym, ap, ◌∙◌, inl, inr, false, some, List, [], ◌∷◌, ◌++◌, map,
  append-nil, append_assoc, ◌==◌, Bool-cases, length, length-append, get_or, All,
}
use pipe_ai_rk3588_industria.PreprocessCsv.Cells.{
  Prints, solid-IsPlain, trim_solid, trim_starts, IsUncut, chomp_uncut, All-append, solid-IsUncut,
  get_or_end, length_some,
}
use pipe_ai_rk3588_industria.PreprocessCsv.{row_from, rows_from, table, header_line, newline}
use pipe_ai_rk3588_industria.Csv.Lines.{bare, IsPlain, split_line-write_line}
use pipe_ai_rk3588_industria.Csv.{
  trim, split_line, parse_float, parse_radar, parse_row, read_rows, read,
}
use pipe_ai_rk3588_industria.Types.{RawSample, ModelInput, input_channels, target_length, position}
use pipe_ai_rk3588_industria.Status.{success}
use pipe_ai_rk3588_industria.Text.{Bytes, is_empty}
use pipe_ai_rk3588_industria.Floats.{Floats}
use pipe_ai_rk3588_industria.PreprocessCsv.Header.{
  header_in_line, split_header, columns_of_header, imu_of_header, header_columns, eight,
}

-- Lines, each with its end.
abbrev pub joined : List Bytes → Bytes
joined [] = []
joined (l ∷ lines) = l ++ newline ++ joined lines

module _ (fl : Floats) where
  open fl use {quiet_nan}

  -- Row `t` of the tensor as a sample.
  abbrev pub row_sample : ModelInput fl → ℕ → RawSample fl
  row_sample tensor t = record {
    timestamp_ns = t;
    radar = map (λ c. get_or tensor (position fl t c) quiet_nan) eight;
    imu = get_or tensor (position fl t 8) quiet_nan;
  }

  abbrev pub row_samples : ModelInput fl → ℕ → ℕ → List (RawSample fl)
  row_samples tensor t zero = []
  row_samples tensor t (suc n) = row_sample tensor t ∷ row_samples tensor (t + 1) n

module _ (fl : Floats) (print : fl.F → Bytes) where
  abbrev pub row_lines : ModelInput fl → ℕ → ℕ → List Bytes
  row_lines tensor t zero = []
  row_lines tensor t (suc n) =
      row_from fl print tensor t 0 input_channels ∷ row_lines tensor (t + 1) n

  abbrev pub table_lines : ModelInput fl → List Bytes
  table_lines tensor = header_line ∷ row_lines tensor 0 target_length

module _ (fl : Floats) (print : fl.F → Bytes) (strtof : Bytes → fl.F × ℕ)
    (laws : Prints fl print strtof) where
  open fl use {F, quiet_nan}

  parse_print : (x old : F) → parse_float fl strtof (print x) old ≡ (success, x)
  unfolding parse_float
  parse_print x old = rw (
    trim_solid (print x) (laws.solid x),
    laws.some_text x,
    laws.reads_back x,
    length_some (print x) (laws.some_text x),
    get_or_end (print x),
  )

  abbrev cells : (ℕ → F) → List Bytes
  cells f =
      print (f 0)
      ∷ print (f 1)
      ∷ print (f 2)
      ∷ print (f 3)
      ∷ print (f 4)
      ∷ print (f 5)
      ∷ print (f 6)
      ∷ print (f 7)
      ∷ print (f 8)
      ∷ []

  parse_columns :
      (fields : List Bytes) (f : ℕ → F) (line_no ch : ℕ) (columns : List ℕ)
      → All (λ c. get_or fields c [] ≡ print (f c)) columns
      → parse_radar fl strtof fields line_no ch columns ≡ (success, map f columns)
  unfolding parse_radar
  parse_columns fields f line_no ch [] h = refl
  parse_columns fields f line_no ch (c ∷ columns) (e, h) =
      rw (e, parse_print (f c) quiet_nan, parse_columns fields f line_no (ch + 1) columns h)

  parse_eight :
      (f : ℕ → F) (line_no : ℕ)
      → parse_radar fl strtof (cells f) line_no 0 eight ≡ (success, map f eight)
  parse_eight f line_no =
      parse_columns (cells f) f line_no 0 eight
        (refl, (refl, (refl, (refl, (refl, (refl, (refl, (refl, tt))))))))

  abbrev entry_of : ModelInput fl → ℕ → ℕ → F
  entry_of tensor t c = get_or tensor (position fl t c) quiet_nan

  row-IsUncut : (tensor : ModelInput fl) (t c n : ℕ) → All IsUncut (row_from fl print tensor t c n)
  unfolding row_from
  row-IsUncut tensor t c zero = tt
  row-IsUncut tensor t c (suc n) =
      let rest = row-IsUncut tensor t (c + 1) n in
      let cell = solid-IsUncut (print (entry_of tensor t c)) (laws.solid _) in
      elim (Bool-cases (c == 0)) [
        | inl e ↦ rw e (All-append _ _ cell rest)
        | inr e ↦ rw e ((refl, refl), All-append _ _ cell rest)
      ]

  plain : (x : F) → IsPlain (print x)
  plain x = solid-IsPlain (print x) (laws.solid x)

  split_row :
      (tensor : ModelInput fl) (t : ℕ)
      → split_line (row_from fl print tensor t 0 input_channels)
        ≡ (success, cells (entry_of tensor t))
  unfolding row_from
  split_row tensor t =
      let e = entry_of tensor t in
      split_line-write_line (bare (print (e 0)))
        (bare (print (e 1))
          ∷ bare (print (e 2))
          ∷ bare (print (e 3))
          ∷ bare (print (e 4))
          ∷ bare (print (e 5))
          ∷ bare (print (e 6))
          ∷ bare (print (e 7))
          ∷ bare (print (e 8))
          ∷ [])
        (
          plain (e 0),
          (
            plain (e 1),
            (
              plain (e 2),
              (
                plain (e 3),
                (plain (e 4), (plain (e 5), (plain (e 6), (plain (e 7), (plain (e 8), tt))))),
              ),
            ),
          ),
        )

  parse_written :
      (tensor : ModelInput fl) (t line_no : ℕ)
      → parse_row fl strtof eight 8 line_no t (row_from fl print tensor t 0 input_channels)
        ≡ (success, row_sample fl tensor t)
  unfolding parse_row
  parse_written tensor t line_no = rw (
    split_row tensor t,
    parse_eight (entry_of tensor t) line_no,
    parse_print (entry_of tensor t 8) quiet_nan,
  )

  row_starts :
      (tensor : ModelInput fl) (t : ℕ)
      → is_empty (trim (row_from fl print tensor t 0 input_channels)) ≡ false
  unfolding row_from
  row_starts tensor t =
      let x = entry_of tensor t 0 in trim_starts (print x) _ (laws.some_text x) (laws.solid x)

  read_written :
      (tensor : ModelInput fl) (t line_no n : ℕ) (samples : List (RawSample fl))
      → length samples ≡ t
      → read_rows fl strtof eight 8 line_no (row_lines fl print tensor t n) samples
        ≡ (success, samples ++ row_samples fl tensor t n)
  unfolding read_rows
  read_written tensor t line_no zero samples h = ap (λ s. (success, s)) (sym (append-nil samples))
  read_written tensor t line_no (suc n) samples h =
      rw
        (
          chomp_uncut _ (row-IsUncut tensor t 0 input_channels),
          row_starts tensor t,
          h,
          parse_written tensor t (line_no + 1),
        )
        (read_written tensor (t + 1) (line_no + 1) n (samples ++ (row_sample fl tensor t ∷ []))
            (length-append samples (row_sample fl tensor t ∷ []) ∙ ap (λ k. k + 1) h)
          ∙ ap (λ s. (success, s)) (append_assoc samples (row_sample fl tensor t ∷ []) _))

  rows-joined :
      (tensor : ModelInput fl) (t n : ℕ)
      → rows_from fl print tensor t n ≡ joined (row_lines fl print tensor t n)
  unfolding rows_from
  rows-joined tensor t zero = refl
  rows-joined tensor t (suc n) = rw (rows-joined tensor (t + 1) n)

  row_lines-IsUncut :
      (tensor : ModelInput fl) (t n : ℕ) → All (All IsUncut) (row_lines fl print tensor t n)
  row_lines-IsUncut tensor t zero = tt
  row_lines-IsUncut tensor t (suc n) =
      (row-IsUncut tensor t 0 input_channels, row_lines-IsUncut tensor (t + 1) n)

  -- If a printed value is some text with neither blanks, commas nor quotes that `std::strtof` reads
  -- back, then the table that the program prints consists of lines, with no end of a line
  -- inside one, that `CsvReader::read` reads back: without an error, and as 128 samples, sample `t`
  -- with the radar values and the IMU value of row `t` of the tensor.
  pub read-table :
      (tensor : ModelInput fl) (path : Bytes)
      → (table fl print tensor ≡ joined (table_lines fl print tensor))
        × All (All IsUncut) (table_lines fl print tensor)
        × (read fl strtof path (some (table_lines fl print tensor)) []
            ≡ (success, row_samples fl tensor 0 target_length))
  unfolding table read
  read-table tensor path = (
    ap (λ rows. header_line ++ newline ++ rows) (rows-joined tensor 0 target_length),
    (header_in_line, row_lines-IsUncut tensor 0 target_length),
    rw (
      columns_of_header,
      imu_of_header,
      split_header,
      header_columns,
      read_written tensor 0 1 target_length [] refl,
    ),
  )
