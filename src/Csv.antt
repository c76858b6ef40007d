-- ===== src/Csv.antt =====
-- The CSV adapter: preprocess/csv_reader.cpp.
-- The file is what `std::getline` gives, line by line, or nothing that opens. `std::strtof` is a
-- parameter: the value, and how many characters it took.
pub mod Lines
pub mod Rows
pub mod Tests
use pipe_ai_rk3588_industria.Prelude.{
  ℕ, zero, suc, ◌+◌, Bool, true, false, not, ◌&&◌, ◌||◌, Option, none, some, List, [], ◌∷◌, ◌++◌,
  ◌==◌, if◌then◌else◌, length, get_or, take, drop,
}
use pipe_ai_rk3588_industria.Text.{Bytes, codes, is_empty, trim_by, same_bytes, to_string}
use pipe_ai_rk3588_industria.Status.{Status, is_ok, success, failure, parse_error, io_error}
use pipe_ai_rk3588_industria.Types.{RawSample, radar_channels}
use pipe_ai_rk3588_industria.Floats.{Floats}

-- The characters of `trim`: blank, tab, line feed, carriage return.
abbrev pub is_blank : ℕ → Bool
is_blank c = (c == 32) || ((c == 9) || ((c == 10) || (c == 13)))

abbrev pub trim : Bytes → Bytes
trim = trim_by is_blank

abbrev pub comma : ℕ
comma = 44

abbrev pub quote : ℕ
quote = 34

-- The variables of the loop of `split_line`; `skip` says that `++i` passes over the next character.
pub record Cursor : Type 0 where
  pub quoted : Bool
  pub skip : Bool
  pub field : Bytes
  pub fields : List Bytes

abbrev pub starts_quote : Bytes → Bool
starts_quote [] = false
starts_quote (c ∷ cs) = c == quote

abbrev pub pushes : Cursor → ℕ → Cursor
pushes k c = record k { field = k.field ++ (c ∷ []) }

-- One character; the flag says that a quote comes next.
unfoldable pub scan_char : Cursor → ℕ → Bool → Status × Cursor
scan_char k c quote_next =
    if k.skip
    then (success, record k { skip = false })
    else if k.quoted
    then if c == quote
      then if quote_next
        then (success, record (pushes k quote) { skip = true })
        else (success, record k { quoted = false })
      else (success, pushes k c)
    else if c == comma
    then (success, record k { field = []; fields = k.fields ++ (k.field ∷ []) })
    else if c == quote
    then if is_empty (trim k.field)
      then (success, record k { field = []; quoted = true })
      else (failure parse_error (codes "unexpected quote in unquoted CSV field"), k)
    else (success, pushes k c)

unfoldable pub scan : Cursor → Bytes → Status × Cursor
scan k [] = (success, k)
scan k (c ∷ cs) =
    let (status, k') = scan_char k c (starts_quote cs) in
    let rest = scan k' cs in if is_ok status then rest else (status, k')

abbrev pub finish : Status × Cursor → Status × List Bytes
finish (status, k) =
    if not (is_ok status)
    then (status, k.fields)
    else if k.quoted
    then (failure parse_error (codes "unterminated quoted CSV field"), k.fields)
    else (success, k.fields ++ (k.field ∷ []))

abbrev pub line_start : Cursor
line_start = record { quoted = false; skip = false; field = []; fields = [] }

unfoldable pub split_line : Bytes → Status × List Bytes
split_line line = finish (scan line_start line)

-- `if (!line.empty() && line.back() == '\r') line.pop_back();`
abbrev pub chomp : Bytes → Bytes
chomp [] = []
chomp (c ∷ cs) = let rest = chomp cs in if (c == 13) && is_empty cs then [] else c ∷ rest

abbrev pub drop_bom : Bytes → Bytes
drop_bom s = if same_bytes (take 3 s) (239 ∷ 187 ∷ 191 ∷ []) then drop 3 s else s

-- `column.find(name)`: of two columns of one name the map keeps the last.
unfoldable pub find_column : Bytes → ℕ → List Bytes → Option ℕ
find_column name i [] = none
find_column name i (h ∷ headers) = elim (find_column name (i + 1) headers) [
  | some j ↦ some j
  | none ↦ if same_bytes (trim h) name then some i else none
]

abbrev pub missing_column : Bytes → Status
missing_column name = failure parse_error (codes "required CSV column missing: " ++ name)

abbrev pub column_name : ℕ → Bytes
column_name ch = codes "D" ++ to_string (ch + 1)

-- The columns of the channels `ch`, `ch + 1`, ...: as many as the number says.
unfoldable pub radar_columns : List Bytes → ℕ → ℕ → Status × List ℕ
radar_columns headers ch zero = (success, [])
radar_columns headers ch (suc n) =
    let (status, rest) = radar_columns headers (ch + 1) n in
    elim (find_column (column_name ch) 0 headers) [
      | none ↦ (missing_column (column_name ch), [])
      | some i ↦ (status, i ∷ rest)
    ]

abbrev pub add_message : Status → Bytes → Status
add_message s m = record s { message = s.message ++ m }

abbrev pub at_line : ℕ → Bytes
at_line n = codes " at CSV line " ++ to_string n

module _ (fl : Floats) (strtof : Bytes → fl.F × ℕ) where
  open fl use {F, quiet_nan}

  -- The status, and `value` after the call.
  unfoldable pub parse_float : Bytes → F → Status × F
  parse_float text value =
      let s = trim text in
      let (parsed, end) = strtof s in
      if is_empty s
      then (success, quiet_nan)
      else if (end == 0) || not (get_or s end 0 == 0)
      then (failure parse_error (codes "invalid numeric value: '" ++ (s ++ codes "'")), value)
      else (success, parsed)

  -- The loop over the radar columns; it stops at the first value that is no number.
  unfoldable pub parse_radar : List Bytes → ℕ → ℕ → List ℕ → Status × List F
  parse_radar fields line_no ch [] = (success, [])
  parse_radar fields line_no ch (idx ∷ idxs) =
      let (status, value) = parse_float (get_or fields idx []) quiet_nan in
      let (status', rest) = parse_radar fields line_no (ch + 1) idxs in
      if is_ok status
      then (status', value ∷ rest)
      else (add_message status (codes " for " ++ (column_name ch ++ at_line line_no)), [])

  -- A line that is not blank, as sample number `n`.
  unfoldable pub parse_row : List ℕ → ℕ → ℕ → ℕ → Bytes → Status × RawSample fl
  parse_row columns imu_column line_no n line =
      let (status, fields) = split_line line in
      let (radar_status, radar) = parse_radar fields line_no 0 columns in
      let (imu_status, imu) = parse_float (get_or fields imu_column []) quiet_nan in
      let sample : RawSample fl = record { timestamp_ns = n; radar = radar; imu = imu } in
      if not (is_ok status)
      then (add_message status (at_line line_no), sample)
      else if not (is_ok radar_status)
      then (radar_status, sample)
      else if not (is_ok imu_status)
      then (add_message imu_status (codes " for IMU" ++ at_line line_no), sample)
      else (success, sample)

  -- The loop over the lines behind the header; `line_no` is the number of the line before.
  unfoldable pub read_rows :
      List ℕ → ℕ → ℕ → List Bytes → List (RawSample fl) → Status × List (RawSample fl)
  read_rows columns imu_column line_no [] samples = (success, samples)
  read_rows columns imu_column line_no (l ∷ lines) samples =
      let line = chomp l in
      let blank = is_empty (trim line) in
      let (status, sample) = parse_row columns imu_column (line_no + 1) (length samples) line in
      let rest =
        read_rows columns imu_column (line_no + 1) lines
          (if blank then samples else samples ++ (sample ∷ [])) in
      if blank || is_ok status then rest else (status, samples)

  abbrev pub some_rows : Bytes → Status × List (RawSample fl) → Status × List (RawSample fl)
  some_rows path (status, []) = (
    if is_ok status
        then failure parse_error (codes "CSV contains no data rows: " ++ path)
        else status,
    [],
  )
  some_rows path (status, s ∷ samples) = (status, s ∷ samples)

  -- `samples`, the last argument, is what the caller's vector held before.
  unfoldable pub read :
      Bytes → Option (List Bytes) → List (RawSample fl) → Status × List (RawSample fl)
  read path none samples = (failure io_error (codes "cannot open CSV: " ++ path), samples)
  read path (some []) samples = (failure parse_error (codes "CSV is empty: " ++ path), samples)
  read path (some (h ∷ lines)) samples =
      let (status, headers) = split_line (drop_bom (chomp h)) in
      let (column_status, columns) = radar_columns headers 0 radar_channels in
      if not (is_ok status)
      then (status, samples)
      else if not (is_ok column_status)
      then (column_status, samples)
      else elim (find_column (codes "IMU") 0 headers) [
        | none ↦ (missing_column (codes "IMU"), samples)
        | some imu_column ↦ some_rows path (read_rows columns imu_column 1 lines [])
      ]
