-- ===== src/Sensor/Replay.antt =====
-- What a file holds for the sensor, read by read (sensor/csv_sensor.cpp).
use mathlib.Core.Path.{subst}
use pipe_ai_rk3588_industria.Prelude.{
  ℕ, zero, suc, ◌<◌, ◌≡◌, refl, ap, ◌∙◌, ◌⊎◌, inl, inr, Bool, true, false, Option, none, some, List,
  [], ◌∷◌, arith, if◌then◌else◌, Option-cases, length, bind,
}
use pipe_ai_rk3588_industria.Floats.{Floats}
use pipe_ai_rk3588_industria.Text.{Bytes}
use pipe_ai_rk3588_industria.Types.{RawSample, radar_channels}
use pipe_ai_rk3588_industria.Sensor.{
  Extracted, got, missed, take_char, Stream, extract, stored, extract_char, is_good, read_radar,
  read_line, CsvSensor, read, read_all,
}

module _ (fl : Floats) (take_number : Bytes → Extracted ℕ)
    (take_float : Bytes → Extracted fl.F) where
  open fl use {F}

  abbrev pub success_of {ℓ} : {A : Type ℓ} → Extracted A → Option (A × Bytes)
  success_of (got a rest) = some (a, rest)
  success_of (missed a) = none

  -- A description of a line that is read: a number, and as many values as the count says, each behind
  -- a character that separates.
  unfoldable pub values_of : ℕ → Bytes → Option (List F × Bytes)
  values_of zero s = some ([], s)
  values_of (suc n) s = bind (take_char s) (λ s'.
      bind (success_of (take_float s'))
        (λ (v, s''). bind (values_of n s'') (λ (vs, rest). some (v ∷ vs, rest))))

  abbrev pub sample_of : Bytes → Option (RawSample fl)
  sample_of line = bind (success_of (take_number line)) (λ (t, s).
      bind (values_of radar_channels s) (λ (radar, s'). bind (take_char s') (λ s''.
        bind (success_of (take_float s''))
          (λ (imu, rest). some (record { timestamp_ns = t; radar = radar; imu = imu })))))

  -- The samples of the lines before the first that is not read.
  abbrev pub replayed : List Bytes → List (RawSample fl)
  replayed [] = []
  replayed (line ∷ lines) = elim (sample_of line) [ none ↦ [] | some s ↦ s ∷ replayed lines ]

  pub replayed_head :
      (line : Bytes) (lines : List Bytes) (s : RawSample fl)
      → sample_of line ≡ some s
      → replayed (line ∷ lines) ≡ s ∷ replayed lines
  replayed_head line lines s h = rw (replayed, h)

  extracted-cases {ℓ} :
      {A : Type ℓ} (x : Extracted A)
      → ((a : A) × (rest : Bytes) × (x ≡ got a rest))
        ⊎ ((success_of x ≡ none) × ((old : A) → (stored x old).1 ≡ none))
  extracted-cases (got a rest) = inl (a, rest, refl)
  extracted-cases (missed none) = inr (refl, λ old. refl)
  extracted-cases (missed (some a)) = inr (refl, λ old. refl)

  -- Once the stream has failed, it stays so.
  radar_failed : (old : List F) → (read_radar fl take_number take_float none old).1 ≡ none
  unfolding read_radar
  radar_failed [] = refl
  radar_failed (r ∷ old) = radar_failed old

  abbrev Agrees : Option (List F × Bytes) → List F × Stream → Type 0
  Agrees none r = r.1 ≡ none
  Agrees (some (vs, rest)) r = r ≡ (vs, some rest)

  cons-Agrees :
      (o : Option (List F × Bytes)) (r : List F × Stream) (v : F)
      → Agrees o r
      → Agrees (bind o (λ (vs, rest). some (v ∷ vs, rest))) (v ∷ r.0, r.1)
  cons-Agrees none r v h = h
  cons-Agrees (some (vs, rest)) r v h = ap (λ (q : List F × Stream). (v ∷ q.0, q.1)) h

  radar-Agrees :
      (s : Bytes) (old : List F)
      → Agrees (values_of (length old) s) (read_radar fl take_number take_float (some s) old)
  unfolding read_radar values_of
  radar-Agrees s [] = refl
  radar-Agrees s (r ∷ old) = elim (Option-cases (take_char s)) [
    | inl e ↦ rw e (radar_failed old)
    | inr (s', e) ↦ elim (extracted-cases (take_float s')) [
      | inr (f, g) ↦ rw (e, f, g r) (radar_failed old)
      | inl (v, s'', f) ↦ rw (e, f) (cons-Agrees _ _ v (radar-Agrees s'' old))
    ]
  ]

  abbrev LineAgrees : Option (RawSample fl) → Bool × RawSample fl → Type 0
  LineAgrees none r = r.0 ≡ false
  LineAgrees (some s) r = r ≡ (true, s)

  -- The end of a line, behind its timestamp and its channels.
  imu-Agrees :
      (t : ℕ) (old : F) (o : Option (List F × Bytes)) (r : List F × Stream)
      → Agrees o r
      → LineAgrees
          (bind o (λ (radar, s'). bind (take_char s') (λ s''.
            bind
              (success_of (take_float s''))
              (λ (imu, rest). some (record { timestamp_ns = t; radar = radar; imu = imu })))))
          (let (imu, s) = extract take_float (extract_char r.1) old in
            (is_good s, record { timestamp_ns = t; radar = r.0; imu = imu }))
  imu-Agrees t old none r h = rw h
  imu-Agrees t old (some (radar, s')) r h = elim (Option-cases (take_char s')) [
    | inl e ↦ rw (h, e)
    | inr (s'', e) ↦ elim (extracted-cases (take_float s'')) [
      | inr (f, g) ↦ rw (h, e, f, g old)
      | inl (v, rest, f) ↦ rw (h, e, f)
    ]
  ]

  line_agrees :
      (line : Bytes) (old : RawSample fl)
      → length old.radar ≡ radar_channels
      → LineAgrees (sample_of line) (read_line fl take_number take_float line old)
  unfolding read_line
  line_agrees line old size = elim (extracted-cases (take_number line)) [
    | inr (f, g) ↦ rw (f, g old.timestamp_ns, radar_failed old.radar)
    | inl (t, s, f) ↦ rw f (
        imu-Agrees t old.imu (values_of radar_channels s) _ (
          subst
            (λ n. Agrees (values_of n s) (read_radar fl take_number take_float (some s) old.radar))
            size (radar-Agrees s old.radar)))
  ]

  length-read_radar :
      (s : Stream) (old : List F)
      → length (read_radar fl take_number take_float s old).0 ≡ length old
  unfolding read_radar
  length-read_radar s [] = refl
  length-read_radar s (r ∷ old) =
      ap suc (length-read_radar (extract take_float (extract_char s) r).1 old)

  -- The samples that the reads to come give.
  abbrev pub to_come : CsvSensor → List (RawSample fl)
  to_come sensor = if sensor.good then replayed sensor.lines else []

  abbrev Takes : List (RawSample fl) → Bool × RawSample fl × CsvSensor → Type 0
  Takes ss (ok, s, sensor) =
      (ok ≡ true → ss ≡ s ∷ to_come sensor)
      × (ok ≡ false → ss ≡ [])
      × (length s.radar ≡ radar_channels)

  line-Takes :
      (o : Option (RawSample fl)) (r : Bool × RawSample fl) (sensor : CsvSensor)
      (ss : List (RawSample fl))
      → to_come sensor ≡ ss
      → length r.1.radar ≡ radar_channels
      → LineAgrees o r
      → Takes (elim o [ none ↦ [] | some s ↦ s ∷ ss ]) (r.0, r.1, sensor)
  line-Takes none r sensor ss e size h = (λ t. cc, λ f. refl, size)
  line-Takes (some s) r sensor ss e size h = (λ t. rw (h, e), λ f. cc, size)

  file-Takes :
      (opened good : Bool) (lines : List Bytes) (old : RawSample fl)
      → length old.radar ≡ radar_channels
      → let sensor : CsvSensor = record { opened = opened; good = good; lines = lines } in
        Takes (to_come sensor) (read fl take_number take_float sensor old)
  unfolding read read_line
  file-Takes opened false lines old size = (λ t. cc, λ f. refl, size)
  file-Takes opened true [] old size = (λ t. cc, λ f. refl, size)
  file-Takes opened true (line ∷ lines) old size =
      line-Takes (sample_of line) (read_line fl take_number take_float line old)
        (record { opened = opened; good = true; lines = lines }) (replayed lines) refl
        (length-read_radar _ old.radar ∙ size) (line_agrees line old size)

  -- A read succeeds exactly as long as the lines hold a sample, and takes the first of those to come;
  -- whatever the sample held before, it has a value for each channel if it had one before.
  pub read-to_come :
      (sensor : CsvSensor) (old : RawSample fl)
      → length old.radar ≡ radar_channels
      → Takes (to_come sensor) (read fl take_number take_float sensor old)
  read-to_come sensor old size = file-Takes sensor.opened sensor.good sensor.lines old size

  loop_step :
      (o : Option (RawSample fl)) (r : Bool × RawSample fl) (rest ss : List (RawSample fl))
      → LineAgrees o r
      → rest ≡ ss
      → (if r.0 then r.1 ∷ rest else []) ≡ elim o [ none ↦ [] | some s ↦ s ∷ ss ]
  loop_step none r rest ss h e = rw h
  loop_step (some s) r rest ss h e = rw (h, e)

  -- The loop reads what the lines hold; it needs no more rounds than there are lines, and one.
  pub read_all-replayed :
      (opened : Bool) (lines : List Bytes) (fuel : ℕ) (old : RawSample fl)
      → length lines < fuel
      → length old.radar ≡ radar_channels
      → read_all fl take_number take_float fuel
          (record { opened = opened; good = true; lines = lines })
          old
        ≡ replayed lines
  unfolding read_all read read_line
  read_all-replayed opened lines zero old h size = elim h [ ]
  read_all-replayed opened [] (suc fuel) old h size = refl
  read_all-replayed opened (line ∷ lines) (suc fuel) old h size =
      loop_step (sample_of line) (read_line fl take_number take_float line old) _ (replayed lines)
        (line_agrees line old size)
        (read_all-replayed opened lines fuel (read_line fl take_number take_float line old).1
          (omega arith) (length-read_radar _ old.radar ∙ size))
