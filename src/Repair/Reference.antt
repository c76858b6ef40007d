-- ===== src/Repair/Reference.antt =====
-- The repair of a channel against its reference description (preprocess/missing_repair.cpp).
use pipe_ai_rk3588_industria.Prelude.{
  ℕ, zero, suc, ◌+◌, ◌≡◌, refl, ap, ◌∙◌, ◌≢◌, inl, inr, Bool, true, not, ◌&&◌, Option, none, some,
  List, [], ◌∷◌, map, arith, ◌==◌, if◌then◌else◌, Bool-cases, length, get_elem?, length-map,
}
use pipe_ai_rk3588_industria.Floats.{Floats, IsIeee, is_valid}
use pipe_ai_rk3588_industria.Repair.{mark_invalid, skip_nan, fill_missing, repair_radar_channel}
use pipe_ai_rk3588_industria.Repair.Interp.{interp}
use pipe_ai_rk3588_industria.Repair.Loops.{fill_missing-interp}

module _ (fl : Floats) where
  open fl use {F, is_nan, quiet_nan, is_finite, zero_f, le}

  abbrev pub sanitized : F → F
  sanitized v = if is_valid fl v then v else quiet_nan

  abbrev pub count_invalid : List F → ℕ
  count_invalid [] = 0
  count_invalid (v ∷ vs) = count_invalid vs + (if is_valid fl v then 0 else 1)

  abbrev pub every_invalid : List F → Bool
  every_invalid [] = true
  every_invalid (v ∷ vs) = not (is_valid fl v) && every_invalid vs

  mark_invalid_lem : (vs : List F) → mark_invalid fl vs ≡ (map sanitized vs, count_invalid vs)
  unfolding mark_invalid
  mark_invalid_lem [] = refl
  mark_invalid_lem (v ∷ vs) = elim (Bool-cases (is_valid fl v)) [
    | inl good ↦ rw (mark_invalid_lem vs, good) (ap (λ n. (v ∷ map sanitized vs, n)) (omega arith))
    | inr bad ↦ rw (mark_invalid_lem vs, bad)
  ]

  module _ (laws : IsIeee fl) where
    sanitized_nan : (v : F) → is_nan (sanitized v) ≡ not (is_valid fl v)
    sanitized_nan v = ground (arith, laws.nan_is_nan, laws.finite_not_nan v)

    every_nan :
        (vs : List F)
        → (skip_nan fl (map sanitized vs) == length (map sanitized vs)) ≡ every_invalid vs
    unfolding skip_nan
    every_nan [] = refl
    every_nan (v ∷ vs) = elim (Bool-cases (is_valid fl v)) [
      | inl good ↦ rw (sanitized_nan v, good) (ground arith)
      | inr bad ↦ rw (sanitized_nan v, bad) (ground (arith, every_nan vs))
    ]

    fill_missing_flag :
        (vs : List F) (m : F) → (fill_missing fl (map sanitized vs) m).1 ≡ every_invalid vs
    unfolding fill_missing
    fill_missing_flag vs m = ground (arith, every_nan vs)

    -- If the float type treats NaN as IEEE 754 does: the repaired channel is the interpolation over
    -- the sample index between the valid readings, with the nearest one held beyond the first and
    -- the last, and `sensor_min` everywhere if there is none. The report counts the readings that
    -- are not finite and positive, and says of a channel that is not empty whether that is all.
    pub repair_interpolates :
        (vs : List F) (m : F)
        → let (repaired, stats) = repair_radar_channel fl vs m in
          (repaired ≡ interp fl m none (map sanitized vs))
          × (stats.invalid_values ≡ count_invalid vs)
          × (vs ≢ [] → stats.all_invalid ≡ every_invalid vs)
    unfolding repair_radar_channel interp
    repair_interpolates [] m = (refl, refl, λ ne. absurd (ne refl))
    repair_interpolates (v ∷ vs) m =
        rw (mark_invalid_lem (v ∷ vs), repair_radar_channel)
          (
            fill_missing-interp fl m (map sanitized (v ∷ vs)),
            refl,
            λ _. fill_missing_flag (v ∷ vs) m,
          )

    interp_keeps :
        (vs : List F) (m : F) (before : Option (ℕ × F)) (i : ℕ) (v : F)
        → get_elem? vs i ≡ some v
        → is_valid fl v ≡ true
        → get_elem? (interp fl m before (map sanitized vs)) i ≡ some v
    unfolding interp
    interp_keeps [] m before i v e good = cc
    interp_keeps (x ∷ vs) m before zero v e good = ground (arith, sanitized_nan x)
    interp_keeps (x ∷ vs) m before (suc i) v e good = elim (Bool-cases (is_nan (sanitized x))) [
      | inl bad ↦ rw bad (interp_keeps vs m _ i v e good)
      | inr fine ↦ rw fine (interp_keeps vs m _ i v e good)
    ]

    length-interp :
        (vs : List F) (m : F) (before : Option (ℕ × F)) → length (interp fl m before vs) ≡ length vs
    unfolding interp
    length-interp [] m before = refl
    length-interp (x ∷ vs) m before = elim (Bool-cases (is_nan x)) [
      | inl bad ↦ rw bad (ap suc (length-interp vs m _))
      | inr fine ↦ rw fine (ap suc (length-interp vs m _))
    ]

    -- The repair neither moves nor changes a reading that is finite and positive, and keeps the
    -- number of samples.
    pub repair_keeps_valid :
        (vs : List F) (m : F)
        → let repaired = (repair_radar_channel fl vs m).0 in
          (length repaired ≡ length vs)
          × ((i : ℕ) (v : F)
              → get_elem? vs i ≡ some v
              → is_valid fl v ≡ true
              → get_elem? repaired i ≡ some v)
    repair_keeps_valid vs m = rw ((repair_interpolates vs m).0) (
      length-interp (map sanitized vs) m none ∙ length-map vs sanitized,
      λ i v e good. interp_keeps vs m none i v e good,
    )
