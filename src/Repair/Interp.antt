-- ===== src/Repair/Interp.antt =====
-- Reference description of the repaired channel: `numpy.interp` over the sample index, as the
-- comment in preprocess/missing_repair.hpp has it.
use pipe_ai_rk3588_industria.Prelude.{
  ℕ, ◌+◌, ◌-◌, ◌≡◌, refl, ap, ◌∙◌, false, Option, none, some, List, [], ◌∷◌, ◌++◌, map, arith,
  if◌then◌else◌, length, tabulate,
}
use mathlib.Core.Path.{ap₂}
use pipe_ai_rk3588_industria.Floats.{Floats}
use pipe_ai_rk3588_industria.Repair.{point}
use pipe_ai_rk3588_industria.Repair.Split.{AllNan}

module _ (fl : Floats) where
  open fl use {F, is_nan}

  -- One sample further away.
  abbrev pub further : Option (ℕ × F) → Option (ℕ × F)
  further none = none
  further (some (d, y)) = some (d + 1, y)

  -- The first valid reading of a list, with its distance.
  abbrev pub next_valid : List F → Option (ℕ × F)
  next_valid [] = none
  next_valid (v ∷ vs) = if is_nan v then further (next_valid vs) else some (0, v)

  -- A missing reading, from the valid readings before and behind it.
  abbrev pub estimate : F → Option (ℕ × F) → Option (ℕ × F) → F
  estimate sensor_min none none = sensor_min
  estimate sensor_min none (some (e, y1)) = y1
  estimate sensor_min (some (d, y0)) none = y0
  estimate sensor_min (some (d, y0)) (some (e, y1)) = point fl y0 y1 d (d + e)

  unfoldable pub interp : F → Option (ℕ × F) → List F → List F
  interp sensor_min before [] = []
  interp sensor_min before (v ∷ vs) =
      if is_nan v
      then estimate sensor_min before (next_valid (v ∷ vs)) ∷ interp sensor_min (further before) vs
      else v ∷ interp sensor_min (some (1, v)) vs

  next_valid-append :
      (gap : List F) (y : F) (rest : List F)
      → AllNan fl gap
      → is_nan y ≡ false
      → next_valid (gap ++ (y ∷ rest)) ≡ some (length gap, y)
  next_valid-append [] y rest h good = rw good
  next_valid-append (x ∷ gap) y rest (b, h) good =
      rw (b, next_valid-append gap y rest h good) (ap (λ n. some (n, y)) (omega arith))

  next_valid-AllNan : (gap : List F) → AllNan fl gap → next_valid gap ≡ none
  next_valid-AllNan [] h = refl
  next_valid-AllNan (x ∷ gap) (b, h) = rw (b, next_valid-AllNan gap h)

  module _ (m : F) where
    pub interp_before :
        (gap : List F) (y : F) (rest : List F) (from : ℕ)
        → AllNan fl gap
        → is_nan y ≡ false
        → interp m none (gap ++ (y ∷ rest))
          ≡ tabulate (λ _. y) from (length gap) ++ (y ∷ interp m (some (1, y)) rest)
    unfolding interp
    interp_before [] y rest from h good = rw good
    interp_before (x ∷ gap) y rest from (b, h) good =
        rw (b, next_valid-append gap y rest h good)
          (ap (◌∷◌ y) (interp_before gap y rest (from + 1) h good))

    pub interp_nowhere : (gap : List F) → AllNan fl gap → interp m none gap ≡ map (λ _. m) gap
    unfolding interp
    interp_nowhere [] h = refl
    interp_nowhere (x ∷ gap) (b, h) =
        rw (b, next_valid-AllNan gap h) (ap (◌∷◌ m) (interp_nowhere gap h))

    pub interp_behind :
        (gap : List F) (y : F) (d from : ℕ)
        → AllNan fl gap
        → interp m (some (d, y)) gap ≡ tabulate (λ _. y) from (length gap)
    unfolding interp
    interp_behind [] y d from h = refl
    interp_behind (x ∷ gap) y d from (b, h) =
        rw (b, next_valid-AllNan gap h) (ap (◌∷◌ y) (interp_behind gap y (d + 1) (from + 1) h))

    pub interp_between :
        (gap : List F) (y0 y1 : F) (rest : List F) (left d span : ℕ)
        → span ≡ d + length gap
        → AllNan fl gap
        → is_nan y1 ≡ false
        → interp m (some (d, y0)) (gap ++ (y1 ∷ rest))
          ≡ tabulate (λ i. point fl y0 y1 (i - left) span) (left + d) (length gap)
            ++ (y1 ∷ interp m (some (1, y1)) rest)
    unfolding interp
    interp_between [] y0 y1 rest left d span e h good = rw good
    interp_between (x ∷ gap) y0 y1 rest left d span e (b, h) good =
        let offset : left + d - left ≡ d = omega arith in
        let whole : d + (length gap + 1) ≡ span = omega arith in
        let shift : left + (d + 1) ≡ left + d + 1 = omega arith in
        rw (b, next_valid-append gap y1 rest h good, offset)
          (ap₂ (λ (z : F) (zs : List F). z ∷ zs) (ap (point fl y0 y1 d) whole)
            (interp_between gap y0 y1 rest left (d + 1) span (omega arith) h good
              ∙ ap
                  (λ from.
                    tabulate (λ i. point fl y0 y1 (i - left) span) from (length gap)
                    ++ (y1 ∷ interp m (some (1, y1)) rest))
                  shift))
