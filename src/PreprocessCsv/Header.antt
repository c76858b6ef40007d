-- ===== src/PreprocessCsv/Header.antt =====
-- The header that the program prints, as the reader of CSV files takes it
-- (tools/preprocess_csv.cpp, preprocess/csv_reader.cpp).
use pipe_ai_rk3588_industria.Prelude.{
  ℕ, ◌≡◌, refl, ap, ◌∙◌, Bool, true, not, ◌&&◌, some, List, [], ◌∷◌, arith, ◌==◌, All,
}
use pipe_ai_rk3588_industria.PreprocessCsv.Cells.{IsUncut}
use pipe_ai_rk3588_industria.PreprocessCsv.{header_line}
use pipe_ai_rk3588_industria.Csv.{
  chomp, drop_bom, split_line, scan, scan_char, find_column, radar_columns,
}
use pipe_ai_rk3588_industria.Types.{radar_channels}
use pipe_ai_rk3588_industria.Status.{success}
use pipe_ai_rk3588_industria.Text.{Bytes, codes, same_bytes, decimal}

abbrev stays_in_line : Bytes → Bool
stays_in_line [] = true
stays_in_line (c ∷ s) = not (c == 13) && (not (c == 10) && stays_in_line s)

stays_in_line-IsUncut : (s : Bytes) → stays_in_line s ≡ true → All IsUncut s
stays_in_line-IsUncut [] h = tt
stays_in_line-IsUncut (c ∷ s) h =
    ((ground arith, ground arith), stays_in_line-IsUncut s (ground arith))

pub header_in_line : All IsUncut header_line
header_in_line = stays_in_line-IsUncut header_line refl

abbrev pub names : List Bytes
names =
    codes "D1"
    ∷ codes "D2"
    ∷ codes "D3"
    ∷ codes "D4"
    ∷ codes "D5"
    ∷ codes "D6"
    ∷ codes "D7"
    ∷ codes "D8"
    ∷ codes "IMU"
    ∷ []

abbrev pub eight : List ℕ
eight = 0 ∷ 1 ∷ 2 ∷ 3 ∷ 4 ∷ 5 ∷ 6 ∷ 7 ∷ []

pub split_header : split_line (drop_bom (chomp header_line)) ≡ (success, names)
unfolding split_line scan scan_char same_bytes
split_header = refl

pub header_columns : radar_columns names 0 radar_channels ≡ (success, eight)
unfolding radar_columns find_column same_bytes decimal
header_columns = refl

header_imu : find_column (codes "IMU") 0 names ≡ some 8
unfolding find_column same_bytes
header_imu = refl

abbrev pub header_fields : List Bytes
header_fields = (split_line (drop_bom (chomp header_line))).1

pub columns_of_header : radar_columns header_fields 0 radar_channels ≡ (success, eight)
columns_of_header = ap (λ r. radar_columns r.1 0 radar_channels) split_header ∙ header_columns

pub imu_of_header : find_column (codes "IMU") 0 header_fields ≡ some 8
imu_of_header = ap (λ r. find_column (codes "IMU") 0 r.1) split_header ∙ header_imu
