-- ===== src/App/Growth.antt =====
-- What the steps of the pipeline do to the results that the callback has seen
-- (runtime/application.cpp, pipeline/pipeline.cpp).
use pipe_ai_rk3588_industria.Prelude.{
  ◌≡◌, refl, sym, ◌∙◌, ◌⊎◌, inl, inr, Bool, true, false, Option, none, some, List, [], ◌∷◌, ◌++◌,
  append-nil, arith, leb, Bool-cases, length,
}
use pipe_ai_rk3588_industria.Pipeline.Steps.{IsOpen}
use pipe_ai_rk3588_industria.Pipeline.Progress.{
  Turn, turn, preprocess_turn, inference_turn, post_turn,
}
use pipe_ai_rk3588_industria.Pipeline.{
  Stages, Stand, popping, pushing, ended, Pipeline, take_sample, popped_raw, pushed_tensor,
  preprocess_step, popped_tensor, pushed_result, inference_step, popped_result, post_step, submit,
}
use pipe_ai_rk3588_industria.Classifier.{classify}
use pipe_ai_rk3588_industria.Queue.{
  Queue, Outcome, waits, returns, push, emplace_impl, pop, may_push,
}
use pipe_ai_rk3588_industria.Types.{RawSample, ModelInput, InferenceResult, target_length}
use pipe_ai_rk3588_industria.Floats.{Floats}

module _ (fl : Floats) (st : Stages fl) where
  -- A step of a worker only adds to what was delivered.
  abbrev pub Grows : Pipeline fl → Option (Pipeline fl) → Type 0
  Grows p none = Unit {0}
  Grows p (some q) = (new : List (InferenceResult fl)) × (q.delivered ≡ p.delivered ++ new)

  abbrev same_delivered :
      (p : Pipeline fl) → (new : List (InferenceResult fl)) × (p.delivered ≡ p.delivered ++ new)
  same_delivered p = ([], sym (append-nil p.delivered))

  take_sample-delivered :
      (s : RawSample fl) (p : Pipeline fl) → (take_sample fl st s p).delivered ≡ p.delivered
  unfolding take_sample
  take_sample-delivered s p =
      elim (Bool-cases (leb target_length (length (p.window_buffer ++ (s ∷ []))))) [
        | inl e ↦ rw e
        | inr e ↦ rw e
      ]

  popped_raw-Grows :
      (p : Pipeline fl) (o : Outcome (Option (RawSample fl) × Queue (RawSample fl)))
      → Grows p (popped_raw fl st p o)
  popped_raw-Grows p waits = tt
  popped_raw-Grows p (returns (none, q)) = same_delivered p
  popped_raw-Grows p (returns (some s, q)) =
      ([], take_sample-delivered s _ ∙ sym (append-nil p.delivered))

  pushed_tensor-Grows :
      (p : Pipeline fl) (o : Outcome (Bool × Queue (ModelInput fl)))
      → Grows p (pushed_tensor fl p o)
  pushed_tensor-Grows p waits = tt
  pushed_tensor-Grows p (returns (done, q)) = same_delivered p

  popped_tensor-Grows :
      (p : Pipeline fl) (o : Outcome (Option (ModelInput fl) × Queue (ModelInput fl)))
      → Grows p (popped_tensor fl st p o)
  popped_tensor-Grows p waits = tt
  popped_tensor-Grows p (returns (none, q)) = same_delivered p
  popped_tensor-Grows p (returns (some x, q)) = same_delivered p

  pushed_result-Grows :
      (p : Pipeline fl) (o : Outcome (Bool × Queue (InferenceResult fl)))
      → Grows p (pushed_result fl p o)
  pushed_result-Grows p waits = tt
  pushed_result-Grows p (returns (done, q)) = same_delivered p

  popped_result-Grows :
      (p : Pipeline fl) (o : Outcome (Option (InferenceResult fl) × Queue (InferenceResult fl)))
      → Grows p (popped_result fl p o)
  popped_result-Grows p waits = tt
  popped_result-Grows p (returns (none, q)) = same_delivered p
  popped_result-Grows p (returns (some r, q)) = (classify fl r ∷ [], refl)

  preprocess_step-Grows :
      (w : Stand (ModelInput fl)) (p : Pipeline fl) → Grows p (preprocess_step fl st w p)
  unfolding preprocess_step
  preprocess_step-Grows popping p = popped_raw-Grows p (pop p.raw_queue)
  preprocess_step-Grows (pushing x) p = pushed_tensor-Grows p (push x p.tensor_queue)
  preprocess_step-Grows ended p = same_delivered p

  inference_step-Grows :
      (w : Stand (InferenceResult fl)) (p : Pipeline fl) → Grows p (inference_step fl st w p)
  unfolding inference_step
  inference_step-Grows popping p = popped_tensor-Grows p (pop p.tensor_queue)
  inference_step-Grows (pushing r) p = pushed_result-Grows p (push r p.result_queue)
  inference_step-Grows ended p = same_delivered p

  post_step-Grows : (w : Bool) (p : Pipeline fl) → Grows p (post_step fl w p)
  unfolding post_step
  post_step-Grows true p = same_delivered p
  post_step-Grows false p = popped_result-Grows p (pop p.result_queue)

  pub turn-Grows : (t : Turn) (p : Pipeline fl) → Grows p (turn fl st t p)
  turn-Grows preprocess_turn p = preprocess_step-Grows p.preprocess_worker p
  turn-Grows inference_turn p = inference_step-Grows p.inference_worker p
  turn-Grows post_turn p = post_step-Grows p.post_ended p

  -- On an open queue a submission waits or is accepted.
  pub submit-cases :
      (s : RawSample fl) (p : Pipeline fl)
      → IsOpen fl st p
      → (submit fl s p ≡ none)
        ⊎ ((q : Pipeline fl) × (submit fl s p ≡ some (true, q)) × (q.delivered ≡ p.delivered))
  unfolding submit emplace_impl
  submit-cases s p open_p = elim (Bool-cases (may_push p.raw_queue)) [
    | inr f ↦ inl (rw f)
    | inl t ↦ inr (
      record p { raw_queue = record p.raw_queue { items = p.raw_queue.items ++ (s ∷ []) } },
      ground arith,
      refl,
    )
  ]
