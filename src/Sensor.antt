-- ===== src/Sensor.antt =====
-- The sensor that replays a file: sensor/csv_sensor.cpp. The file is what `std::getline` gives, line
-- by line. The extraction of a number from a stream is a parameter.
pub mod Replay
pub mod Written
pub mod Tests
use pipe_ai_rk3588_industria.Prelude.{
  ℕ, zero, suc, Bool, true, false, not, Option, none, some, List, [], ◌∷◌, if◌then◌else◌, bind,
}
use pipe_ai_rk3588_industria.Floats.{Floats}
use pipe_ai_rk3588_industria.Text.{Bytes}
use pipe_ai_rk3588_industria.Config.{is_space}
use pipe_ai_rk3588_industria.Types.{RawSample, radar_channels}

-- What `>>` makes of the characters of a stream: a value and the characters behind it, or a failure,
-- which may leave a value in the variable all the same.
pub data Extracted {ℓ} (A : Type ℓ) : Type ℓ where
  got : A → Bytes → Extracted A
  missed : Option A → Extracted A

-- The characters that are left in a stream; `none` once an extraction has failed.
abbrev pub Stream : Type 0
Stream = Option Bytes

abbrev pub stored {ℓ} : {A : Type ℓ} → Extracted A → A → A × Stream
stored (got a rest) old = (a, some rest)
stored (missed none) old = (old, none)
stored (missed (some a)) old = (a, none)

-- `ss >> variable`, with what the variable held before.
abbrev pub extract {ℓ} : {A : Type ℓ} → (Bytes → Extracted A) → Stream → A → A × Stream
extract from none old = (old, none)
extract from (some s) old = stored (from s) old

-- `ss >> comma` takes any character behind the blanks.
abbrev pub take_char : Bytes → Option Bytes
take_char [] = none
take_char (c ∷ s) = let rest = take_char s in if is_space c then rest else some s

abbrev pub extract_char : Stream → Stream
extract_char s = bind s take_char

abbrev pub is_good : Stream → Bool
is_good none = false
is_good (some s) = true

-- `file_`: whether a file is open, `good()`, and the lines that are left.
pub record CsvSensor : Type 0 where
  pub opened : Bool
  pub good : Bool
  pub lines : List Bytes

abbrev pub new_sensor : CsvSensor
new_sensor = record { opened = false; good = true; lines = [] }

abbrev pub opened_file : Option (List Bytes) → CsvSensor → CsvSensor
opened_file none sensor = record sensor { good = false }
opened_file (some lines) sensor = record { opened = true; good = true; lines = lines }

-- `contents` is what the path names, if that can be opened. A stream that has a file open refuses.
unfoldable pub open_file : Option (List Bytes) → CsvSensor → Bool × CsvSensor
open_file contents sensor =
    let after =
      if sensor.opened then record sensor { good = false } else opened_file contents sensor in
    (after.good, after)

unfoldable pub close_file : CsvSensor → CsvSensor
close_file sensor = if sensor.opened then record sensor { opened = false; lines = [] } else sensor

module _ (fl : Floats) (take_number : Bytes → Extracted ℕ)
    (take_float : Bytes → Extracted fl.F) where
  open fl use {F}

  -- The loop over the channels.
  unfoldable pub read_radar : Stream → List F → List F × Stream
  read_radar s [] = ([], s)
  read_radar s (r ∷ rs) =
      let (v, s') = extract take_float (extract_char s) r in
      let (vs, s'') = read_radar s' rs in (v ∷ vs, s'')

  -- A line, over what the sample held before.
  unfoldable pub read_line : Bytes → RawSample fl → Bool × RawSample fl
  read_line line old =
      let (t, s) = extract take_number (some line) old.timestamp_ns in
      let (radar, s') = read_radar s old.radar in
      let (imu, s'') = extract take_float (extract_char s') old.imu in
      (is_good s'', record { timestamp_ns = t; radar = radar; imu = imu })

  abbrev pub read_from : List Bytes → CsvSensor → RawSample fl → Bool × RawSample fl × CsvSensor
  read_from [] sensor sample = (false, sample, record sensor { good = false })
  read_from (line ∷ lines) sensor sample =
      let (ok, sample') = read_line line sample in (ok, sample', record sensor { lines = lines })

  unfoldable pub read : CsvSensor → RawSample fl → Bool × RawSample fl × CsvSensor
  read sensor sample =
      if not sensor.good then (false, sample, sensor) else read_from sensor.lines sensor sample

  -- `while (sensor.read(sample))`, with the samples that it reads; each read takes a line.
  unfoldable pub read_all : ℕ → CsvSensor → RawSample fl → List (RawSample fl)
  read_all zero sensor sample = []
  read_all (suc fuel) sensor sample =
      let (ok, sample', sensor') = read sensor sample in
      let rest = read_all fuel sensor' sample' in if ok then sample' ∷ rest else []
