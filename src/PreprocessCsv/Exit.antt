-- ===== src/PreprocessCsv/Exit.antt =====
-- The exit status of the program, and what it has written then (tools/preprocess_csv.cpp).
use pipe_ai_rk3588_industria.Prelude.{
  ℕ, ◌≡◌, ◌≢◌, ◌↔◌, ◌⊎◌, inl, inr, Bool, true, ◌||◌, Option, none, some, List, [], ◌∷◌, arith,
  Bool-cases,
}
use pipe_ai_rk3588_industria.Floats.{Floats}
use pipe_ai_rk3588_industria.Text.{Bytes, is_empty}
use pipe_ai_rk3588_industria.Status.{Status, is_ok}
use pipe_ai_rk3588_industria.Types.{RawSample, ModelInput, cleared_input}
use pipe_ai_rk3588_industria.Csv
use pipe_ai_rk3588_industria.Preprocessor.{PreprocessOptions, PreprocessReport}
use pipe_ai_rk3588_industria.Preprocessor
use pipe_ai_rk3588_industria.PreprocessCsv.{
  table, summary, deliver, convert_samples, convert_file, main,
}

module _ (fl : Floats) (print : fl.F → Bytes) (strtof : Bytes → fl.F × ℕ)
    (lines_of : Bytes → Option (List Bytes)) (opened : Bytes → Bool) where
  -- The samples that are read, and what the preprocessor makes of them.
  abbrev pub read_from : Bytes → Status × List (RawSample fl)
  read_from input = Csv.read fl strtof input (lines_of input) []

  abbrev pub preprocessed : Bytes → Status × ModelInput fl × PreprocessReport
  preprocessed input =
      Preprocessor.run fl (record { sensor_min = fl.narrow (fl.of_size 150) }) (read_from input).1
        (cleared_input fl)

  -- With an input and an output path the program ends with status 0 exactly if the file is read,
  -- the samples are preprocessed and the output, unless its path is empty, can be opened. With
  -- status 0 it has printed the summary, and has put the table of the tensor on the standard output or
  -- in the output file, not in both. With another status it has put nothing on either.
  -- Without an output path it does what it does with an empty one.
  pub main_exit :
      (program input output : Bytes)
      → let o = main fl print strtof lines_of opened (program ∷ input ∷ output ∷ []) in
        let (status, tensor, report) = preprocessed input in
        ((o.exit_status ≡ 0) ↔ (
          (is_ok (read_from input).0 ≡ true)
          × (is_ok status ≡ true)
          × ((is_empty output || opened output) ≡ true)))
        × (o.exit_status ≡ 0
            → (o.err ≡ summary report)
              × (((o.out ≡ table fl print tensor) × (o.written ≡ none))
                  ⊎ ((o.out ≡ []) × (o.written ≡ some (output, table fl print tensor)))))
        × (o.exit_status ≢ 0 → (o.out ≡ []) × (o.written ≡ none))
        × (main fl print strtof lines_of opened (program ∷ input ∷ [])
            ≡ main fl print strtof lines_of opened (program ∷ input ∷ [] ∷ []))
  unfolding main convert_file convert_samples deliver
  main_exit program input output = elim (Bool-cases (is_ok (read_from input).0)) [
    | inr r ↦ rw r (ground arith)
    | inl r ↦ elim (Bool-cases (is_ok (preprocessed input).0)) [
      | inr s ↦ rw (r, s) (ground arith)
      | inl s ↦ rw (r, s) (ground arith)
    ]
  ]
