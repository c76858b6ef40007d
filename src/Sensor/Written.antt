-- ===== src/Sensor/Written.antt =====
-- Samples that are written as lines and replayed (sensor/csv_sensor.cpp).
use pipe_ai_rk3588_industria.Prelude.{
  ℕ, suc, ◌^◌, ◌<◌, ◌≡◌, refl, sym, ap, ◌∙◌, true, ◌&&◌, ◌||◌, none, some, List, [], ◌∷◌, ◌++◌, map,
  arith, leb, length, length-map, All,
}
use pipe_ai_rk3588_industria.Sensor.Replay.{
  success_of, values_of, sample_of, replayed, replayed_head, read_all-replayed,
}
use pipe_ai_rk3588_industria.Sensor.{Extracted, got, read_all, open_file, new_sensor}
use pipe_ai_rk3588_industria.Types.{RawSample, radar_channels}
use pipe_ai_rk3588_industria.Csv.{comma}
use pipe_ai_rk3588_industria.Text.{Bytes}
use pipe_ai_rk3588_industria.Floats.{Floats}

module _ (fl : Floats) (take_number : Bytes → Extracted ℕ)
    (take_float : Bytes → Extracted fl.F) where
  open fl use {F}

  -- The end of a line, or a comma that separates.
  abbrev pub IsBehind : Bytes → Type 0
  IsBehind [] = Unit {0}
  IsBehind (c ∷ s) = c ≡ comma

  abbrev pub IsLetter : ℕ → Type 0
  IsLetter c = ((leb b'A' c && leb c b'Z') || (leb b'a' c && leb c b'z')) ≡ true

  -- What is used of the extraction of numbers: a printed number of 64 bits, and a printed value that is finite, is
  -- read back up to a comma or the end of the line, and a letter begins no number.
  pub record Extracts (print_number : ℕ → Bytes) (print : F → Bytes) : Type 0 where
    pub number_back :
        (n : ℕ) (rest : Bytes)
        → n < 2 ^ 64
        → IsBehind rest
        → take_number (print_number n ++ rest) ≡ got n rest
    pub float_back :
        (x : F) (rest : Bytes)
        → fl.is_finite x ≡ true
        → IsBehind rest
        → take_float (print x ++ rest) ≡ got x rest
    pub letter_missed :
        (c : ℕ) (s : Bytes)
        → IsLetter c
        → success_of fl take_number take_float (take_number (c ∷ s)) ≡ none

  module _ (print_number : ℕ → Bytes) (print : F → Bytes) where
    abbrev pub write_values : List F → Bytes → Bytes
    write_values [] rest = rest
    write_values (v ∷ vs) rest = comma ∷ (print v ++ write_values vs rest)

    -- The timestamp, the channels and the IMU, with commas between.
    abbrev pub write_sample : RawSample fl → Bytes
    write_sample s =
        print_number s.timestamp_ns ++ write_values s.radar (comma ∷ (print s.imu ++ []))

    module _ (laws : Extracts print_number print) where
      values-IsBehind :
          (vs : List F) (rest : Bytes) → IsBehind rest → IsBehind (write_values vs rest)
      values-IsBehind [] rest h = h
      values-IsBehind (v ∷ vs) rest h = refl

      abbrev AreFinite : List F → Type 0
      AreFinite = All (λ v. fl.is_finite v ≡ true)

      -- A timestamp of 64 bits, and a value for each channel, all of them finite.
      abbrev pub IsWhole : RawSample fl → Type 0
      IsWhole s =
          (s.timestamp_ns < 2 ^ 64)
          × (length s.radar ≡ radar_channels)
          × AreFinite s.radar
          × (fl.is_finite s.imu ≡ true)

      values_of-write :
          (vs : List F) (rest : Bytes)
          → AreFinite vs
          → IsBehind rest
          → values_of fl take_number take_float (length vs) (write_values vs rest) ≡ some (vs, rest)
      unfolding values_of
      values_of-write [] rest f h = refl
      values_of-write (v ∷ vs) rest (e, f) h = rw (
        laws.float_back v (write_values vs rest) e (values-IsBehind vs rest h),
        values_of-write vs rest f h,
      )

      sample_of-write :
          (s : RawSample fl)
          → IsWhole s
          → sample_of fl take_number take_float (write_sample s) ≡ some s
      sample_of-write s (bits, size, f, e) =
          let tail = comma ∷ (print s.imu ++ []) in
          rw (
            laws.number_back s.timestamp_ns (write_values s.radar tail) bits
                (values-IsBehind s.radar tail refl),
            sym size,
            values_of-write s.radar tail f refl,
            laws.float_back s.imu [] e tt,
          )

      replayed-write :
          (ss : List (RawSample fl))
          → All IsWhole ss
          → (replayed fl take_number take_float (map write_sample ss) ≡ ss)
            × ((c : ℕ) (line : Bytes) (lines : List Bytes)
                → IsLetter c
                → replayed fl take_number take_float (map write_sample ss ++ ((c ∷ line) ∷ lines))
                  ≡ ss)
      replayed-write [] h =
          (refl, λ c line lines letter. rw (replayed, laws.letter_missed c line letter))
      replayed-write (s ∷ ss) (whole, h) =
          let (all, part) = replayed-write ss h in
          let head = λ (lines : List Bytes).
            replayed_head fl take_number take_float (write_sample s) lines s
              (sample_of-write s whole) in
          (
            head (map write_sample ss) ∙ ap (λ xs. s ∷ xs) all,
            λ c line lines letter.
                head (map write_sample ss ++ ((c ∷ line) ∷ lines))
                ∙ ap (λ xs. s ∷ xs) (part c line lines letter),
          )

      -- If numbers are read back as they are printed: a sensor that opens a file of samples, one to a
      -- line, each with a timestamp of 64 bits and a finite value for each channel, reads these
      -- samples until a read fails, whatever the sample of the caller held. A line that begins with a
      -- letter, such as a header, ends the reads, whatever comes behind it.
      pub read_all-write :
          (ss : List (RawSample fl)) (old : RawSample fl)
          → All IsWhole ss
          → length old.radar ≡ radar_channels
          → ((open_file (some (map write_sample ss)) new_sensor).0 ≡ true)
            × (read_all fl take_number take_float
                  (suc (length ss))
                  (open_file (some (map write_sample ss)) new_sensor).1
                  old
                ≡ ss)
            × ((c : ℕ) (line : Bytes) (lines : List Bytes)
                → IsLetter c
                → let file = map write_sample ss ++ ((c ∷ line) ∷ lines) in
                  read_all fl take_number take_float
                    (suc (length file))
                    (open_file (some file) new_sensor).1
                    old
                  ≡ ss)
      unfolding open_file
      read_all-write ss old whole size =
          let (all, part) = replayed-write ss whole in
          (
            refl,
            read_all-replayed fl take_number take_float true (map write_sample ss) (suc (length ss))
                  old (omega (arith, length-map {0, 0} ss write_sample)) size
                ∙ all,
            λ c line lines letter.
                read_all-replayed fl take_number take_float true
                  (map write_sample ss ++ ((c ∷ line) ∷ lines)) _ old (omega arith) size
                ∙ part c line lines letter,
          )
