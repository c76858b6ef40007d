-- ===== src/Pipeline/Shapes.antt =====
-- The sizes of what the pipeline holds (pipeline/pipeline.cpp).
pub mod Sizes
use mathlib.Core.Path.{subst}
use pipe_ai_rk3588_industria.Prelude.{
  ℕ, ◌+◌, ◌-◌, ◌≡◌, refl, sym, ◌∙◌, Bool, true, false, Option, none, some, List, [], ◌∷◌, ◌++◌,
  arith, leb, if◌then◌else◌, length, length-replicate,
}
use pipe_ai_rk3588_industria.Resample.{resample_linear_normalized}
use pipe_ai_rk3588_industria.Engine.{infer}
use pipe_ai_rk3588_industria.Floats.{Floats}
use pipe_ai_rk3588_industria.Status.{Status, is_ok}
use pipe_ai_rk3588_industria.Types.{
  RawSample, ModelInput, InferenceResult, element_count, class_count, target_length, cleared_input,
  blank_result,
}
use pipe_ai_rk3588_industria.Queue.{
  Queue, Outcome, waits, returns, push, emplace_impl, pop, dequeue, may_push, may_pop, enqueue,
}
use pipe_ai_rk3588_industria.Classifier.{classify}
use pipe_ai_rk3588_industria.Classifier.Best.{length-softmax}
use pipe_ai_rk3588_industria.Preprocessor.{
  run, emit, PreprocessOptions, PreprocessReport, resample_all, write_tensor,
}
use pipe_ai_rk3588_industria.Preprocessor.Layout.{length-write_tensor}
use pipe_ai_rk3588_industria.Pipeline.{
  Stages, Stand, popping, pushing, ended, Pipeline, preprocess, copy_logits, infer_window,
  take_sample, popped_raw, pushed_tensor, preprocess_step, popped_tensor, pushed_result,
  inference_step, popped_result, post_step, submitted, submit, started, with_output, numbered,
}
use pipe_ai_rk3588_industria.Pipeline.Shapes.Sizes.{
  All-snoc, AfterPush, AfterPop, push-AfterPush, pop-AfterPop, OnStand, IsTensor, IsFive, IsShaped,
  length-run, infer_window-IsFive, classify-IsFive,
}
use pipe_ai_rk3588_industria.Pipeline.Order.{Reach, begins, submits, preprocesses, infers, posts}

module _ (fl : Floats) (st : Stages fl) where
  abbrev Kept : Option (Pipeline fl) → Type 0
  Kept none = Unit {0}
  Kept (some p) = (IsShaped fl st) p

  abbrev stand_for : Option (ModelInput fl) → Stand (ModelInput fl)
  stand_for o = elim o [ none ↦ popping | some x ↦ pushing x ]

  stand-IsTensor :
      (b : Bool) (x : ModelInput fl)
      → (IsTensor fl st) x
      → OnStand (IsTensor fl st) (stand_for (if b then some x else none))
  stand-IsTensor true x h = h
  stand-IsTensor false x h = tt

  preprocess-IsTensor :
      (window : List (RawSample fl))
      → OnStand (IsTensor fl st) (stand_for (preprocess fl st window))
  unfolding preprocess
  preprocess-IsTensor window =
      let (status, input, report) = run fl st.options window (cleared_input fl) in
      stand-IsTensor (is_ok status) input (
        length-run fl st st.options window (cleared_input fl)
        ∙ length-replicate {A = fl.F} element_count fl.zero_f)

  choose-IsShaped :
      (b : Bool) (x y : Pipeline fl)
      → (IsShaped fl st) x
      → (b ≡ false → (IsShaped fl st) y)
      → (IsShaped fl st) (if b then x else y)
  choose-IsShaped true x y h k = h
  choose-IsShaped false x y h k = k refl

  take_sample-IsShaped :
      (s : RawSample fl) (p : Pipeline fl)
      → (IsShaped fl st) p
      → (IsShaped fl st) (take_sample fl st s p)
  unfolding take_sample
  take_sample-IsShaped s p (a, b, c, d, e, f) =
      let window = p.window_buffer ++ (s ∷ []) in
      choose-IsShaped (leb target_length (length window)) _ _
        (a, preprocess-IsTensor window, c, d, e, omega arith)
        (λ short. (a, tt, c, d, e, ground arith))

  popped_raw-Kept :
      (p : Pipeline fl) (o : Outcome (Option (RawSample fl) × Queue (RawSample fl)))
      → (IsShaped fl st) p
      → Kept (popped_raw fl st p o)
  popped_raw-Kept p waits h = tt
  popped_raw-Kept p (returns (none, q)) (a, b, c, d, e, f) = (a, tt, c, d, e, f)
  popped_raw-Kept p (returns (some s, q)) h = take_sample-IsShaped s _ h

  preprocess_step-Kept :
      (w : Stand (ModelInput fl)) (p : Pipeline fl)
      → OnStand (IsTensor fl st) w
      → (IsShaped fl st) p
      → Kept (preprocess_step fl st w p)
  unfolding preprocess_step
  preprocess_step-Kept popping p w h = popped_raw-Kept p (pop p.raw_queue) h
  preprocess_step-Kept (pushing x) p w (a, b, c, d, e, f) =
      after_push (push x p.tensor_queue) (push-AfterPush (IsTensor fl st) x p.tensor_queue w a)
    where
      after_push :
          (o : Outcome (Bool × Queue (ModelInput fl)))
          → AfterPush (IsTensor fl st) o
          → Kept (pushed_tensor fl p o)
      after_push waits k = tt
      after_push (returns (done, q)) k = (k, tt, c, d, e, f)
  preprocess_step-Kept ended p w (a, b, c, d, e, f) = (a, tt, c, d, e, f)

  inference_step-Kept :
      (w : Stand (InferenceResult fl)) (p : Pipeline fl)
      → OnStand (IsFive fl st) w
      → (IsShaped fl st) p
      → Kept (inference_step fl st w p)
  unfolding inference_step
  inference_step-Kept popping p w (a, b, c, d, e, f) =
      after_pop (pop p.tensor_queue) (pop-AfterPop (IsTensor fl st) p.tensor_queue a)
    where
      after_pop :
          (o : Outcome (Option (ModelInput fl) × Queue (ModelInput fl)))
          → AfterPop (IsTensor fl st) o
          → Kept (popped_tensor fl st p o)
      after_pop waits k = tt
      after_pop (returns (none, q)) k = (k, b, c, tt, e, f)
      after_pop (returns (some x, q)) (y, k) = (k, b, c, infer_window-IsFive fl st _ x, e, f)
  inference_step-Kept (pushing r) p w (a, b, c, d, e, f) =
      after_push (push r p.result_queue) (push-AfterPush (IsFive fl st) r p.result_queue w c)
    where
      after_push :
          (o : Outcome (Bool × Queue (InferenceResult fl)))
          → AfterPush (IsFive fl st) o
          → Kept (pushed_result fl p o)
      after_push waits k = tt
      after_push (returns (done, q)) k = (a, b, k, tt, e, f)
  inference_step-Kept ended p w (a, b, c, d, e, f) = (a, b, c, tt, e, f)

  post_step-Kept : (w : Bool) (p : Pipeline fl) → (IsShaped fl st) p → Kept (post_step fl w p)
  unfolding post_step
  post_step-Kept true p h = h
  post_step-Kept false p (a, b, c, d, e, f) =
      after_pop (pop p.result_queue) (pop-AfterPop (IsFive fl st) p.result_queue c)
    where
      after_pop :
          (o : Outcome (Option (InferenceResult fl) × Queue (InferenceResult fl)))
          → AfterPop (IsFive fl st) o
          → Kept (popped_result fl p o)
      after_pop waits k = tt
      after_pop (returns (none, q)) k = (a, b, k, d, e, f)
      after_pop (returns (some r, q)) (y, k) = (
        a,
        b,
        k,
        d,
        All-snoc (IsFive fl st) p.delivered (classify fl r) e (classify-IsFive fl st r y),
        f,
      )

  abbrev KeptBy : Option (Bool × Pipeline fl) → Type 0
  KeptBy none = Unit {0}
  KeptBy (some (done, p)) = (IsShaped fl st) p

  submitted-KeptBy :
      (p : Pipeline fl) (o : Outcome (Bool × Queue (RawSample fl)))
      → (IsShaped fl st) p
      → KeptBy (submitted fl p o)
  submitted-KeptBy p waits h = tt
  submitted-KeptBy p (returns (done, q)) h = h

  submit-KeptBy : (s : RawSample fl) (p : Pipeline fl) → (IsShaped fl st) p → KeptBy (submit fl s p)
  unfolding submit
  submit-KeptBy s p h = submitted-KeptBy p (push s p.raw_queue) h

  -- The sizes fit at any time before a stop, in every schedule: each tensor that is queued or about to be
  -- has 1152 values, each result that is queued, about to be, or delivered has a logit and
  -- a probability for each of the five classes, and the window that is being filled has fewer than 128
  -- samples.
  pub Reach-IsShaped :
      (capacity : ℕ) {ss : List (RawSample fl)} {p : Pipeline fl}
      → Reach fl st capacity ss p
      → (IsShaped fl st) p
  unfolding started
  Reach-IsShaped capacity (begins e) =
      subst (IsShaped fl st) (sym e) (tt, tt, tt, tt, tt, omega arith)
  Reach-IsShaped capacity (submits s r h e) =
      subst KeptBy h (submit-KeptBy s _ (Reach-IsShaped capacity r))
  Reach-IsShaped capacity (preprocesses {p = p} r h) =
      let k = Reach-IsShaped capacity r in
      subst Kept h (preprocess_step-Kept p.preprocess_worker p k.1 k)
  Reach-IsShaped capacity (infers {p = p} r h) =
      let (a, b, c, d, e, f) = Reach-IsShaped capacity r in
      subst Kept h (inference_step-Kept p.inference_worker p d (a, b, c, d, e, f))
  Reach-IsShaped capacity (posts {p = p} r h) =
      subst Kept h (post_step-Kept p.post_ended p (Reach-IsShaped capacity r))
