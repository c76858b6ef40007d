-- ===== src/PreprocessCsv.antt =====
-- The program that preprocesses a CSV file: tools/preprocess_csv.cpp. The files, `std::strtof` and
-- the printing of a `float` with nine digits are parameters.
mod Header
mod Cells
pub mod Written
pub mod Exit
pub mod Tests
use pipe_ai_rk3588_industria.Prelude.{
  ℕ, zero, suc, ◌+◌, Bool, true, false, not, Option, none, some, List, [], ◌∷◌, ◌++◌, ◌==◌,
  if◌then◌else◌, get_or,
}
use pipe_ai_rk3588_industria.Floats.{Floats}
use pipe_ai_rk3588_industria.Text.{Bytes, codes, to_string, is_empty}
use pipe_ai_rk3588_industria.Status.{Status, is_ok}
use pipe_ai_rk3588_industria.Types.{
  RawSample, ModelInput, cleared_input, input_channels, target_length, position,
}
use pipe_ai_rk3588_industria.Csv
use pipe_ai_rk3588_industria.Preprocessor.{PreprocessReport, PreprocessOptions}
use pipe_ai_rk3588_industria.Preprocessor

-- What the process leaves: its exit status, the two streams, and the file it has written.
pub record Outcome : Type 0 where
  pub exit_status : ℕ
  pub out : Bytes
  pub err : Bytes
  pub written : Option (Bytes × Bytes)

abbrev pub newline : Bytes
newline = 10 ∷ []

abbrev failed : Bytes → Outcome
failed message = record { exit_status = 1; out = []; err = message ++ newline; written = none }

abbrev usage : Outcome
usage = failed (codes "usage: pipeai_preprocess_csv INPUT.csv [OUTPUT.csv]")

abbrev pub header_line : Bytes
header_line = codes "D1,D2,D3,D4,D5,D6,D7,D8,IMU"

abbrev yes_no : Bool → Bytes
yes_no true = codes "yes"
yes_no false = codes "no"

unfoldable pub summary : PreprocessReport → Bytes
summary report =
    codes "source_samples="
    ++ to_string report.source_samples
    ++ codes " repaired_radar_values="
    ++ to_string report.radar_invalid_values
    ++ codes " all_invalid_channels="
    ++ to_string report.all_invalid_radar_channels
    ++ codes " imu_nonfinite="
    ++ to_string report.imu_nonfinite_values
    ++ codes " savgol="
    ++ yes_no report.savgol_applied
    ++ newline

module _ (fl : Floats) (print : fl.F → Bytes) where
  open fl use {F, quiet_nan}

  -- The values of row `t` from channel `c` on, as many as the number says.
  unfoldable pub row_from : ModelInput fl → ℕ → ℕ → ℕ → Bytes
  row_from tensor t c zero = []
  row_from tensor t c (suc n) =
      let cell = print (get_or tensor (position fl t c) quiet_nan) in
      let rest = row_from tensor t (c + 1) n in (if c == 0 then cell else Csv.comma ∷ cell) ++ rest

  unfoldable pub rows_from : ModelInput fl → ℕ → ℕ → Bytes
  rows_from tensor t zero = []
  rows_from tensor t (suc n) =
      row_from tensor t 0 input_channels ++ newline ++ rows_from tensor (t + 1) n

  unfoldable pub table : ModelInput fl → Bytes
  table tensor = header_line ++ newline ++ rows_from tensor 0 target_length

  -- `opened` tells of a path whether it can be opened for writing.
  unfoldable pub deliver : (Bytes → Bool) → Bytes → ModelInput fl → PreprocessReport → Outcome
  deliver opened path tensor report =
      if is_empty path
      then record { exit_status = 0; out = table tensor; err = summary report; written = none }
      else if opened path
      then record {
        exit_status = 0;
        out = [];
        err = summary report;
        written = some (path, table tensor);
      }
      else failed (codes "cannot create output: " ++ path)

  -- `lines_of` gives the lines of a file that can be read.
  module _ (strtof : Bytes → F × ℕ) (lines_of : Bytes → Option (List Bytes))
      (opened : Bytes → Bool) where
    unfoldable pub convert_samples : Bytes → List (RawSample fl) → Outcome
    convert_samples output_path samples =
        let options : PreprocessOptions fl = record { sensor_min = fl.narrow (fl.of_size 150) } in
        let (status, tensor, report) = Preprocessor.run fl options samples (cleared_input fl) in
        if not (is_ok status)
        then failed (codes "preprocess error: " ++ status.message)
        else deliver opened output_path tensor report

    unfoldable pub convert_file : Bytes → Bytes → Outcome
    convert_file input_path output_path =
        let (status, samples) = Csv.read fl strtof input_path (lines_of input_path) [] in
        if not (is_ok status)
        then failed (codes "CSV error: " ++ status.message)
        else convert_samples output_path samples

    -- `argv`, with the name of the program first.
    unfoldable pub main : List Bytes → Outcome
    main (program ∷ input ∷ []) = convert_file input []
    main (program ∷ input ∷ output ∷ []) = convert_file input output
    main _ = usage
