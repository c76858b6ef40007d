-- ===== src/Pipeline/Shapes/Sizes.antt =====
-- The sizes of what one call makes, and what a queue call leaves (pipeline/pipeline.cpp).
use pipe_ai_rk3588_industria.Prelude.{
  ℕ, suc, ◌<◌, ◌≡◌, refl, ap, ◌∙◌, inl, inr, Bool, true, false, Option, none, some, List, [], ◌∷◌,
  ◌++◌, arith, if◌then◌else◌, Bool-cases, length, All,
}
use pipe_ai_rk3588_industria.Resample.{resample_linear_normalized}
use pipe_ai_rk3588_industria.Engine.{infer}
use pipe_ai_rk3588_industria.Floats.{Floats}
use pipe_ai_rk3588_industria.Status.{Status, is_ok}
use pipe_ai_rk3588_industria.Types.{
  RawSample, ModelInput, InferenceResult, element_count, class_count, target_length,
}
use pipe_ai_rk3588_industria.Queue.{
  Queue, Outcome, waits, returns, push, emplace_impl, pop, dequeue, may_push, may_pop,
}
use pipe_ai_rk3588_industria.Classifier.{classify}
use pipe_ai_rk3588_industria.Classifier.Best.{length-softmax}
use pipe_ai_rk3588_industria.Preprocessor.{
  run, emit, PreprocessOptions, PreprocessReport, resample_all,
}
use pipe_ai_rk3588_industria.Preprocessor.Layout.{length-write_tensor}
use pipe_ai_rk3588_industria.Pipeline.{
  Stages, Stand, popping, pushing, ended, Pipeline, copy_logits, infer_window, with_output,
  numbered,
}

module _ {A : Type 0} (P : A → Type 0) where
  pub All-snoc : (xs : List A) (x : A) → All P xs → P x → All P (xs ++ (x ∷ []))
  All-snoc [] x h px = (px, tt)
  All-snoc (y ∷ xs) x (py, h) px = (py, All-snoc xs x h px)

  abbrev pub AfterPush : Outcome (Bool × Queue A) → Type 0
  AfterPush waits = Unit
  AfterPush (returns (done, q)) = All P q.items

  abbrev pub AfterPop : Outcome (Option A × Queue A) → Type 0
  AfterPop waits = Unit
  AfterPop (returns (none, q)) = All P q.items
  AfterPop (returns (some x, q)) = P x × All P q.items

  pub push-AfterPush : (x : A) (q : Queue A) → P x → All P q.items → AfterPush (push x q)
  unfolding emplace_impl
  push-AfterPush x q px h = elim (Bool-cases (may_push q)) [
    | inr f ↦ rw f tt
    | inl t ↦ elim (Bool-cases q.closed) [
      | inl c ↦ rw (t, c) h
      | inr o ↦ rw (t, o) (All-snoc q.items x h px)
    ]
  ]

  dequeue-AfterPop :
      (q : Queue A) (xs : List A) → All P q.items → All P xs → AfterPop (returns (dequeue q xs))
  dequeue-AfterPop q [] h k = h
  dequeue-AfterPop q (x ∷ xs) h (px, k) = (px, k)

  pub pop-AfterPop : (q : Queue A) → All P q.items → AfterPop (pop q)
  unfolding pop
  pop-AfterPop q h = elim (Bool-cases (may_pop q)) [
    | inr f ↦ rw f tt
    | inl t ↦ rw t (dequeue-AfterPop q q.items h h)
  ]

  -- What a worker is about to push.
  abbrev pub OnStand : Stand A → Type 0
  OnStand popping = Unit
  OnStand (pushing x) = P x
  OnStand ended = Unit

module _ (fl : Floats) (st : Stages fl) where
  abbrev pub IsTensor : ModelInput fl → Type 0
  IsTensor x = length x ≡ element_count

  -- A value for each class.
  abbrev pub IsFive : InferenceResult fl → Type 0
  IsFive r = (length r.logits ≡ class_count) × (length r.probabilities ≡ class_count)

  abbrev pub IsShaped : Pipeline fl → Type 0
  IsShaped p =
      All IsTensor p.tensor_queue.items
      × OnStand IsTensor p.preprocess_worker
      × All IsFive p.result_queue.items
      × OnStand IsFive p.inference_worker
      × All IsFive p.delivered
      × (length p.window_buffer < target_length)

  length-emit :
      (radar : List (List fl.F)) (imu : List fl.F) (output : ModelInput fl)
      (report : PreprocessReport)
      → length (emit fl radar imu output report).1 ≡ length output
  unfolding emit
  length-emit radar imu output report = ground (
    arith,
    length-write_tensor fl (resample_all fl radar).1
        (resample_linear_normalized fl imu target_length []).1 0 target_length output,
  )

  pub length-run :
      (options : PreprocessOptions fl) (ss : List (RawSample fl)) (output : ModelInput fl)
      → length (run fl options ss output).1 ≡ length output
  unfolding run
  length-run options [] output = refl
  length-run options (s ∷ ss) output = elim (Bool-cases (fl.is_finite options.sensor_min)) [
    | inr f ↦ rw f
    | inl t ↦ rw t (length-emit _ _ output _)
  ]

  length-copy_logits :
      (logits output : List fl.F) → length (copy_logits fl logits output) ≡ length logits
  unfolding copy_logits
  length-copy_logits [] output = refl
  length-copy_logits (l ∷ logits) [] = refl
  length-copy_logits (l ∷ logits) (o ∷ output) = ap suc (length-copy_logits logits output)

  with_output-IsFive :
      (r : InferenceResult fl) (o : Status × List fl.F) → IsFive r → IsFive (with_output fl r o)
  with_output-IsFive r (status, output) (a, b) = elim (Bool-cases (is_ok status)) [
    | inl t ↦ rw t (length-copy_logits r.logits output ∙ a, b)
    | inr f ↦ rw f (a, b)
  ]

  choose-IsFive :
      (b : Bool) (x y : InferenceResult fl) → IsFive x → IsFive y → IsFive (if b then x else y)
  choose-IsFive true x y h k = h
  choose-IsFive false x y h k = k

  pub infer_window-IsFive : (id : ℕ) (x : ModelInput fl) → IsFive (infer_window fl st id x)
  unfolding infer_window
  infer_window-IsFive id x =
      choose-IsFive st.engine.initialized _ (numbered fl id)
        (with_output-IsFive (numbered fl id) (infer fl st.sdk st.engine x []) (refl, refl))
        (refl, refl)

  pub classify-IsFive : (r : InferenceResult fl) → IsFive r → IsFive (classify fl r)
  unfolding classify
  classify-IsFive r (a, b) = (a, length-softmax fl r.logits ∙ a)
