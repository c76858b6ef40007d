-- ===== src/Pipeline/Windows.antt =====
-- How many windows there are, and how the results are numbered (pipeline/pipeline.cpp).
use pipe_ai_rk3588_industria.Prelude.{
  ℕ, suc, ◌+◌, ◌/◌, ◌≤◌, ◌<◌, ◌≡◌, refl, sym, ap, ◌∙◌, ◌≢◌, inl, inr, true, some, List, [], ◌∷◌,
  ◌++◌, map, arith, leb, leb→le, Bool-cases, length, length-append, length-replicate,
}
use mathlib.Core.Path.{subst}
use pipe_ai_rk3588_industria.Floats.{Floats, IsIeee}
use pipe_ai_rk3588_industria.Status.{is_ok}
use pipe_ai_rk3588_industria.Types.{
  RawSample, ModelInput, InferenceResult, target_length, element_count, cleared_input,
}
use pipe_ai_rk3588_industria.Classifier.{classify}
use pipe_ai_rk3588_industria.Engine.{infer}
use pipe_ai_rk3588_industria.Preprocessor
use pipe_ai_rk3588_industria.Preprocessor.Result.{run_tensor}
use pipe_ai_rk3588_industria.Pipeline.{Stages, Pipeline, preprocess, infer_window}
use pipe_ai_rk3588_industria.Pipeline.Steps.{feed, infer_all, expected}
use pipe_ai_rk3588_industria.Pipeline.Order.{Reach, Reach-delivers}
use pipe_ai_rk3588_industria.Pipeline.Progress.{AllWait}
use pipe_ai_rk3588_industria.Pipeline.Drain.{Reach-drains, rests}

module _ (fl : Floats) (st : Stages fl) where
  -- Results `k + 1`, `k + 2`, ....
  abbrev pub IsNumbered : ℕ → List (InferenceResult fl) → Type 0
  IsNumbered k [] = Unit {0}
  IsNumbered k (r ∷ rs) = (r.window_id ≡ k + 1) × IsNumbered (k + 1) rs

  IsNumbered-append :
      (k : ℕ) (rs rest : List (InferenceResult fl)) → IsNumbered k (rs ++ rest) → IsNumbered k rs
  IsNumbered-append k [] rest h = tt
  IsNumbered-append k (r ∷ rs) rest (e, h) = (e, IsNumbered-append (k + 1) rs rest h)

  infer_window_id :
      (id : ℕ) (x : ModelInput fl) → (classify fl (infer_window fl st id x)).window_id ≡ id
  unfolding classify infer_window
  infer_window_id id x = elim (Bool-cases st.engine.initialized) [
    | inr off ↦ rw off
    | inl on ↦ elim (Bool-cases (is_ok (infer fl st.sdk st.engine x []).0)) [
      | inl good ↦ rw (good, on)
      | inr bad ↦ rw (bad, on)
    ]
  ]

  infer_all-IsNumbered :
      (k : ℕ) (xs : List (ModelInput fl)) → IsNumbered k (map (classify fl) (infer_all fl st k xs))
  unfolding infer_all
  infer_all-IsNumbered k [] = tt
  infer_all-IsNumbered k (x ∷ xs) = (infer_window_id (k + 1) x, infer_all-IsNumbered (k + 1) xs)

  length-infer_all :
      (k : ℕ) (xs : List (ModelInput fl))
      → length (map (classify fl) (infer_all fl st k xs)) ≡ length xs
  unfolding infer_all
  length-infer_all k [] = refl
  length-infer_all k (x ∷ xs) = ap suc (length-infer_all (k + 1) xs)

  module _ (laws : IsIeee fl) (good : fl.is_finite st.options.sensor_min ≡ true) where
    preprocess_total :
        (window : List (RawSample fl))
        → window ≢ []
        → (x : ModelInput fl) × (preprocess fl st window ≡ some x)
    unfolding preprocess
    preprocess_total window h =
        let fine =
          (run_tensor fl laws st.options window (cleared_input fl)
              (length-replicate element_count fl.zero_f)).0.1
            (h, good) in
        ((Preprocessor.run fl st.options window (cleared_input fl)).1, rw fine)

    length-feed :
        (buffer ss : List (RawSample fl))
        → length buffer < target_length
        → length (feed fl st buffer ss) ≡ (length buffer + length ss) / target_length
    unfolding feed
    length-feed buffer [] h = omega arith
    length-feed buffer (s ∷ ss) h =
        let window = buffer ++ (s ∷ []) in
        let size = length-append buffer (s ∷ []) in
        elim (Bool-cases (leb target_length (length window))) [
          | inr short ↦
              let below : length window < target_length = ground arith in
              rw short
                (length-feed window ss below ∙ ap (λ n. n / target_length) (omega (arith, size)))
          | inl full ↦
              let (x, made) =
                preprocess_total window (λ e. absurd (omega (arith, size, ap length e))) in
              rw (full, made)
                (omega (arith, length-feed [] ss (omega arith), size, leb→le _ _ full))
        ]

    -- If the float type is ordered as IEEE 754 says and `sensor_min` is finite: until it is stopped, the
    -- pipeline has delivered at most one result for each 128 accepted samples, in every schedule, and
    -- exactly one when all workers wait on queues with room for a value; the results are numbered 1, 2,
    -- 3, ... in the order of delivery.
    pub Reach-counts :
        (capacity : ℕ) {ss : List (RawSample fl)} {p : Pipeline fl}
        → 0 < capacity
        → Reach fl st capacity ss p
        → (length p.delivered ≤ length ss / target_length)
          × (AllWait fl st p → length p.delivered ≡ length ss / target_length)
          × IsNumbered 0 p.delivered
    Reach-counts capacity {ss} {p} room r =
        let size : length (expected fl st ss) ≡ length ss / target_length =
          omega (arith, length-infer_all 0 (feed fl st [] ss), length-feed [] ss (omega arith)) in
        let (rest, prefix) = (Reach-delivers fl st capacity r).0 in
        (
          omega (arith, size, ap length prefix, length-append p.delivered rest),
          λ h. ap length ((Reach-drains fl st capacity room r rests).1 h) ∙ size,
          IsNumbered-append 0 p.delivered rest
              (subst (IsNumbered 0) (sym prefix) (infer_all-IsNumbered 0 (feed fl st [] ss))),
        )
