-- ===== src/Pipeline/Passage/Third.antt =====
-- The third worker's steps keep the account of what passes (pipeline/pipeline.cpp).
use pipe_ai_rk3588_industria.Prelude.{
  ◌≡◌, refl, sym, ap, ◌∙◌, inl, inr, Bool, true, false, some, List, [], ◌∷◌, ◌++◌, map,
  append_assoc, Bool-cases,
}
use pipe_ai_rk3588_industria.Floats.{Floats}
use pipe_ai_rk3588_industria.Types.{RawSample, InferenceResult}
use pipe_ai_rk3588_industria.Queue.{pop}
use pipe_ai_rk3588_industria.Classifier.{classify}
use pipe_ai_rk3588_industria.Pipeline.{Stages, Pipeline, post_step}
use pipe_ai_rk3588_industria.Pipeline.Steps.{pop_result, stuck_result}
use pipe_ai_rk3588_industria.Pipeline.Through.{Through, kept_by}

module _ (fl : Floats) (st : Stages fl) (ss : List (RawSample fl)) where
  -- Behind a change of the third worker and its queue, which stays as open as it was.
  resent :
      (p r : Pipeline fl) (t : Through fl st ss p)
      → r.result_queue.closed ≡ p.result_queue.closed
      → r.tensor_queue ≡ p.tensor_queue
      → r.raw_queue ≡ p.raw_queue
      → r.window_buffer ≡ p.window_buffer
      → r.preprocess_worker ≡ p.preprocess_worker
      → r.inference_worker ≡ p.inference_worker
      → r.window_id ≡ p.window_id
      → r.delivered ++ map (classify fl) r.result_queue.items ≡ map (classify fl) t.results_in
      → Through fl st ss r
  resent p r t result tensor raw buffer worker infers id sent = record {
    tensors_in = t.tensors_in;
    results_in = t.results_in;
    fed = t.fed;
    feeding =
        λ live ys. rw (raw, buffer, worker) (t.feeding (sym (ap (λ z. z.closed) tensor) ∙ live) ys);
    inferred = t.inferred;
    inferring = λ live zs. rw (tensor, infers, id) (t.inferring (sym result ∙ live) zs);
    sent = sent;
  }

  pub quit_result :
      (p : Pipeline fl)
      → p.result_queue.items ≡ []
      → p.result_queue.closed ≡ true
      → post_step fl false p ≡ some (record p { post_ended = true })
  unfolding post_step pop
  quit_result p i shut = rw (i, shut)

  pub post-Through :
      (w : Bool) (l : List (InferenceResult fl)) (p q : Pipeline fl)
      → p.result_queue.items ≡ l
      → Through fl st ss p
      → post_step fl w p ≡ some q
      → Through fl st ss q
  unfolding post_step
  post-Through false [] p q i t h = elim (Bool-cases p.result_queue.closed) [
    | inr live ↦ cc (stuck_result fl st p i live)
    | inl shut ↦
        kept_by fl st ss _ q _ (quit_result p i shut)
          (resent p _ t refl refl refl refl refl refl refl t.sent) h
  ]
  post-Through false (r ∷ l) p q i t h =
      kept_by fl st ss _ q _ (pop_result fl st r l p i)
        (resent p _ t refl refl refl refl refl refl refl
          (append_assoc p.delivered (classify fl r ∷ []) (map (classify fl) l) ∙ (rw i at t.sent)))
        h
  post-Through true l p q i t h =
      kept_by fl st ss _ q (record p { post_ended = false }) refl
        (resent p _ t refl refl refl refl refl refl refl t.sent) h
