-- ===== src/Repair/Loops.antt =====
-- The loops of preprocess/missing_repair.cpp against the reference description.
use pipe_ai_rk3588_industria.Prelude.{
  ℕ, zero, suc, ◌+◌, ◌-◌, ◌≤◌, ◌≡◌, refl, sym, ap, ◌∙◌, true, false, none, some, List, [], ◌∷◌,
  ◌++◌, append-nil, append_assoc, arith, ltb, ◌==◌, lt→ltb, ==_iff, length, length-append, drop,
  tabulate, get_or-append, drop-append, append-cons, length-tabulate, write_range,
  write_range-append,
}
use mathlib.Core.Path.{ap₂}
use pipe_ai_rk3588_industria.Floats.{Floats}
use pipe_ai_rk3588_industria.Repair.{skip_nan, value_at, point, bridge_gap, fill_gaps, fill_missing}
use pipe_ai_rk3588_industria.Repair.Split.{AllNan, missing, reaches, split}
use pipe_ai_rk3588_industria.Repair.Interp.{
  interp, interp_before, interp_nowhere, interp_behind, interp_between,
}

module _ (fl : Floats) (m : fl.F) where
  open fl use {F, is_nan, quiet_nan}

  bridge_gap-append :
      (gap pre : List F) (y y1 : F) (rest : List F) (left right : ℕ)
      → left ≡ length pre
      → right ≡ left + 1 + length gap
      → bridge_gap fl left right (pre ++ (y ∷ (gap ++ (y1 ∷ rest))))
        ≡ pre
          ++ (y
              ∷ (tabulate (λ i. point fl y y1 (i - left) (right - left)) (left + 1) (length gap)
                  ++ (y1 ∷ rest)))
  unfolding bridge_gap
  bridge_gap-append [] pre y y1 rest left right e r = ground (arith, r)
  bridge_gap-append (x ∷ gap) pre y y1 rest left right e r =
      let vs = pre ++ (y ∷ ((x ∷ gap) ++ (y1 ∷ rest))) in
      let at_left : value_at fl vs left ≡ y =
        ap (value_at fl vs) e ∙ get_or-append pre y quiet_nan ((x ∷ gap) ++ (y1 ∷ rest)) in
      let front = pre ++ (y ∷ (x ∷ gap)) in
      let at_right : value_at fl vs right ≡ y1 =
        ap₂ (value_at fl) (sym (append_assoc pre (y ∷ (x ∷ gap)) (y1 ∷ rest)))
          (omega (arith, length-append pre (y ∷ (x ∷ gap)), e, r))
        ∙ get_or-append front y1 quiet_nan rest in
      let wide : ltb (left + 1) right ≡ true = lt→ltb _ _ (omega arith) in
      let many : right - (left + 1) ≡ length (x ∷ gap) = omega arith in
      rw (wide, at_left, at_right, many)
        (ap (write_range _ (left + 1) (length (x ∷ gap))) (append-cons pre y _)
          ∙ write_range-append _ (x ∷ gap) (pre ++ (y ∷ [])) (y1 ∷ rest) (left + 1)
              (omega (arith, length-append pre (y ∷ []), e))
          ∙ sym (append-cons pre y _))

  module _ (pre : List F) (y : F) (left : ℕ) (e : left ≡ length pre) where
    size_lem : (rest : List F) → length (pre ++ (y ∷ rest)) ≡ left + 1 + length rest
    size_lem rest = omega (arith, length-append pre (y ∷ rest), e)

    tail_lem : (rest : List F) → drop (left + 1) (pre ++ (y ∷ rest)) ≡ rest
    tail_lem rest =
        ap₂ drop (omega (arith, length-append pre (y ∷ []), e)) (append-cons pre y rest)
        ∙ drop-append (pre ++ (y ∷ [])) rest

    head_lem : (rest : List F) → value_at fl (pre ++ (y ∷ rest)) left ≡ y
    head_lem rest = ap (value_at fl (pre ++ (y ∷ rest))) e ∙ get_or-append pre y quiet_nan rest

    -- No valid reading behind `left`.
    fill_gaps_end :
        (fuel : ℕ) (rest : List F)
        → AllNan fl rest
        → skip_nan fl rest ≡ length rest
        → fill_gaps fl (suc fuel) left (pre ++ (y ∷ rest))
          ≡ pre ++ (y ∷ tabulate (λ _. y) (left + 1) (length rest))
    unfolding fill_gaps
    fill_gaps_end fuel [] h n =
        let last : ltb (left + 1) (left + 1 + 0) ≡ false = ground arith in rw (size_lem [], last)
    fill_gaps_end fuel (x ∷ rest) h n =
        let size = size_lem (x ∷ rest) in
        let more : ltb (left + 1) (left + 1 + length (x ∷ rest)) ≡ true =
          lt→ltb _ _ (omega arith) in
        let at_end : (left + 1 + length (x ∷ rest) == left + 1 + length (x ∷ rest)) ≡ true =
          (==_iff _ _).1 refl in
        let many : left + 1 + length (x ∷ rest) - (left + 1) ≡ length (x ∷ rest) = omega arith in
        rw (tail_lem (x ∷ rest), n, size, more, at_end, head_lem (x ∷ rest), many)
          (ap (write_range (λ _. y) (left + 1) (length (x ∷ rest))) (
              append-cons pre y (x ∷ rest)
              ∙ ap (λ l. (pre ++ (y ∷ [])) ++ l) (sym (append-nil (x ∷ rest))))
            ∙ write_range-append (λ _. y) (x ∷ rest) (pre ++ (y ∷ [])) [] (left + 1)
                (omega (arith, length-append pre (y ∷ []), e))
            ∙ ap (λ l. (pre ++ (y ∷ [])) ++ l) (append-nil _)
            ∙ sym (append-cons pre y _))

    -- A gap, and a valid reading behind it.
    fill_gaps_step :
        (fuel : ℕ) (gap : List F) (y1 : F) (rest : List F) (right : ℕ)
        → right ≡ left + 1 + length gap
        → skip_nan fl (gap ++ (y1 ∷ rest)) ≡ length gap
        → fill_gaps fl (suc fuel) left (pre ++ (y ∷ (gap ++ (y1 ∷ rest))))
          ≡ fill_gaps fl fuel right (
              pre
              ++ (y
                  ∷ (tabulate (λ i. point fl y y1 (i - left) (right - left)) (left + 1) (length gap)
                      ++ (y1 ∷ rest))))
    unfolding fill_gaps
    fill_gaps_step fuel gap y1 rest right r n =
        let more : ltb (left + 1) (left + 1 + length (gap ++ (y1 ∷ rest))) ≡ true =
          lt→ltb _ _ (omega (arith, length-append gap (y1 ∷ rest))) in
        let inside : (right == left + 1 + length (gap ++ (y1 ∷ rest))) ≡ false =
          ground (arith, length-append gap (y1 ∷ rest)) in
        rw (tail_lem (gap ++ (y1 ∷ rest)), n, ← r, size_lem (gap ++ (y1 ∷ rest)), more, inside)
          (ap (fill_gaps fl fuel right) (bridge_gap-append gap pre y y1 rest left right e r))

  fill_gaps-interp :
      (fuel : ℕ) (pre : List F) (y : F) (rest : List F) (left : ℕ)
      → left ≡ length pre
      → length rest ≤ fuel
      → fill_gaps fl fuel left (pre ++ (y ∷ rest)) ≡ pre ++ (y ∷ interp fl m (some (1, y)) rest)
  unfolding fill_gaps interp
  fill_gaps-interp zero pre y [] left e h = refl
  fill_gaps-interp zero pre y (x ∷ rest) left e h = absurd (omega arith)
  fill_gaps-interp (suc fuel) pre y rest left e h = elim (split fl rest) [
    | missing all n ↦
        fill_gaps_end pre y left e fuel rest all n
        ∙ ap (λ l. pre ++ (y ∷ l)) (sym (interp_behind fl m rest y 1 (left + 1) all))
    | reaches gap y1 rest' e' all good n ↦
        let right : ℕ = left + 1 + length gap in
        let filled : List F =
          tabulate (λ i. point fl y y1 (i - left) (right - left)) (left + 1) (length gap) in
        rw e' (
          fill_gaps_step pre y left e fuel gap y1 rest' right refl (rw e' at n)
          ∙ ap (fill_gaps fl fuel right) (sym (append_assoc pre (y ∷ filled) (y1 ∷ rest')))
          ∙ fill_gaps-interp fuel (pre ++ (y ∷ filled)) y1 rest' right
              (omega (
                arith,
                length-append pre (y ∷ filled),
                e,
                length-tabulate {A = F} (λ i. point fl y y1 (i - left) (right - left)) (left + 1)
                    (length gap),
              ))
              (omega (arith, ap length e', length-append gap (y1 ∷ rest'), h))
          ∙ append_assoc pre (y ∷ filled) (y1 ∷ interp fl m (some (1, y1)) rest')
          ∙ ap (λ l. pre ++ (y ∷ l))
              (sym
                (interp_between fl m gap y y1 rest' left 1 (right - left) (omega arith) all good)))
  ]

  pub fill_missing-interp : (vs : List F) → (fill_missing fl vs m).0 ≡ interp fl m none vs
  unfolding fill_missing
  fill_missing-interp vs = elim (split fl vs) [
    | missing all n ↦
        let every : (length vs == length vs) ≡ true = (==_iff _ _).1 refl in
        rw (n, every) (sym (interp_nowhere fl m vs all))
    | reaches gap y rest e all good n ↦
        let size = ap length e in
        let some_valid : (length gap == length vs) ≡ false =
          ground (arith, size, length-append gap (y ∷ rest)) in
        rw (n, some_valid, e)
          (ap (fill_gaps fl (length (gap ++ (y ∷ rest))) (length gap)) (
              ap (λ v. write_range (λ _. v) 0 (length gap) (gap ++ (y ∷ rest)))
                (get_or-append gap y quiet_nan rest)
              ∙ write_range-append (λ _. y) gap [] (y ∷ rest) 0 refl)
            ∙ fill_gaps-interp (length (gap ++ (y ∷ rest))) (tabulate (λ _. y) 0 (length gap)) y
                rest (length gap) (sym (length-tabulate (λ _. y) 0 (length gap)))
                (omega (arith, length-append gap (y ∷ rest)))
            ∙ sym (interp_before fl m gap y rest 0 all good))
  ]
