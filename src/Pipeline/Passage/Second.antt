-- ===== src/Pipeline/Passage/Second.antt =====
-- The second worker's steps keep the account of what passes (pipeline/pipeline.cpp).
use pipe_ai_rk3588_industria.Prelude.{
  ◌≡◌, refl, sym, ap, ◌∙◌, inl, inr, true, false, some, List, [], ◌∷◌, ◌++◌, map, append-nil,
  append_assoc, arith, Bool-cases,
}
use pipe_ai_rk3588_industria.Floats.{Floats}
use pipe_ai_rk3588_industria.Types.{RawSample, ModelInput, InferenceResult}
use pipe_ai_rk3588_industria.Queue.{pop, emplace_impl}
use pipe_ai_rk3588_industria.Classifier.{classify}
use pipe_ai_rk3588_industria.Pipeline.{
  Stages, Stand, popping, pushing, ended, Pipeline, inference_step,
}
use pipe_ai_rk3588_industria.Pipeline.Steps.{infer_all, held, pop_tensor, stuck_tensor}
use pipe_ai_rk3588_industria.Pipeline.Through.{Through, kept_by, map-append}

module _ (fl : Floats) (st : Stages fl) (ss : List (RawSample fl)) where
  pub quit_tensor :
      (p : Pipeline fl)
      → p.tensor_queue.items ≡ []
      → p.tensor_queue.closed ≡ true
      → inference_step fl st popping p ≡ some (record p { inference_worker = ended })
  unfolding inference_step pop
  quit_tensor p i shut = rw (i, shut)

  pub refuse_result :
      (r : InferenceResult fl) (p : Pipeline fl)
      → p.result_queue.closed ≡ true
      → inference_step fl st (pushing r) p ≡ some (record p { inference_worker = popping })
  unfolding inference_step emplace_impl
  refuse_result r p shut = rw shut

  pub push_result :
      (r : InferenceResult fl) (p q : Pipeline fl)
      → p.result_queue.closed ≡ false
      → inference_step fl st (pushing r) p ≡ some q
      → inference_step fl st (pushing r) p
        ≡ some (record p {
          result_queue = record p.result_queue { items = p.result_queue.items ++ (r ∷ []) };
          inference_worker = popping;
        })
  unfolding inference_step emplace_impl
  push_result r p q live h = ground arith

  pub back_to_pop :
      (p : Pipeline fl)
      → inference_step fl st ended p ≡ some (record p { inference_worker = popping })
  unfolding inference_step
  back_to_pop p = refl

  -- Behind a change of the second worker and its queue, which stays as open as it was.
  reinferred :
      (p r : Pipeline fl) (t : Through fl st ss p)
      → r.tensor_queue.closed ≡ p.tensor_queue.closed
      → r.raw_queue ≡ p.raw_queue
      → r.window_buffer ≡ p.window_buffer
      → r.preprocess_worker ≡ p.preprocess_worker
      → r.result_queue ≡ p.result_queue
      → r.delivered ≡ p.delivered
      → (p.result_queue.closed ≡ false
          → (zs : List (ModelInput fl))
          → t.results_in
              ++ (held fl st r.inference_worker
                  ++ infer_all fl st r.window_id (r.tensor_queue.items ++ zs))
            ≡ infer_all fl st 0 (t.tensors_in ++ zs))
      → Through fl st ss r
  reinferred p r t tensor raw buffer worker result sent inferring = record {
    tensors_in = t.tensors_in;
    results_in = t.results_in;
    fed = t.fed;
    feeding = λ live ys. rw (raw, buffer, worker) (t.feeding (sym tensor ∙ live) ys);
    inferred = t.inferred;
    inferring = λ live. inferring (sym (ap (λ z. z.closed) result) ∙ live);
    sent = rw (sent, result) t.sent;
  }

  pub inference-Through :
      (w : Stand (InferenceResult fl)) (l : List (ModelInput fl)) (p q : Pipeline fl)
      → p.inference_worker ≡ w
      → p.tensor_queue.items ≡ l
      → Through fl st ss p
      → inference_step fl st w p ≡ some q
      → Through fl st ss q
  unfolding infer_all
  inference-Through popping [] p q e i t h = elim (Bool-cases p.tensor_queue.closed) [
    | inr live ↦ cc (stuck_tensor fl st p i live)
    | inl shut ↦
        kept_by fl st ss _ q _ (quit_tensor p i shut)
          (reinferred p _ t refl refl refl refl refl refl
            (λ live zs. rw e at (t.inferring live zs)))
          h
  ]
  inference-Through popping (x ∷ l) p q e i t h =
      kept_by fl st ss _ q _ (pop_tensor fl st x l p i)
        (reinferred p _ t refl refl refl refl refl refl
          (λ live zs. rw (e, i) at (t.inferring live zs)))
        h
  inference-Through (pushing r) l p q e i t h = elim (Bool-cases p.result_queue.closed) [
    | inl shut ↦
        kept_by fl st ss _ q _ (refuse_result r p shut)
          (reinferred p _ t refl refl refl refl refl refl (λ live zs. absurd (cc (shut, live)))) h
    | inr live ↦
        let infers = λ (zs : List (ModelInput fl)).
          append_assoc t.results_in (r ∷ [])
            (infer_all fl st p.window_id (p.tensor_queue.items ++ zs))
          ∙ (rw e at (t.inferring live zs)) in
        kept_by fl st ss _ q _ (push_result r p q live h)
          (record {
            tensors_in = t.tensors_in;
            results_in = t.results_in ++ (r ∷ []);
            fed = t.fed;
            feeding = t.feeding;
            inferred = (
              infer_all fl st p.window_id (p.tensor_queue.items ++ []),
              infers [] ∙ ap (infer_all fl st 0) (append-nil t.tensors_in),
            );
            inferring = λ _ zs. infers zs;
            sent =
                ap (λ l. p.delivered ++ l) (map-append (classify fl) p.result_queue.items (r ∷ []))
                ∙ sym (
                    append_assoc p.delivered (map (classify fl) p.result_queue.items)
                      (classify fl r ∷ []))
                ∙ ap (λ l. l ++ (classify fl r ∷ [])) t.sent
                ∙ sym (map-append (classify fl) t.results_in (r ∷ []));
          })
          h
  ]
  inference-Through ended l p q e i t h =
      kept_by fl st ss _ q (record p { inference_worker = popping }) (back_to_pop p)
        (reinferred p _ t refl refl refl refl refl refl (λ live zs. rw e at (t.inferring live zs)))
        h
