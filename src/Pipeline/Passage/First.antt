-- ===== src/Pipeline/Passage/First.antt =====
-- The first worker's steps keep the account of what passes (pipeline/pipeline.cpp).
use pipe_ai_rk3588_industria.Prelude.{
  ◌≡◌, refl, sym, ap, ◌∙◌, inl, inr, true, false, some, List, [], ◌∷◌, ◌++◌, append-nil,
  append_assoc, arith, Bool-cases,
}
use pipe_ai_rk3588_industria.Floats.{Floats}
use pipe_ai_rk3588_industria.Types.{RawSample, ModelInput}
use pipe_ai_rk3588_industria.Queue.{pop, emplace_impl}
use pipe_ai_rk3588_industria.Pipeline.{
  Stages, Stand, popping, pushing, ended, Pipeline, take_sample, preprocess_step,
}
use pipe_ai_rk3588_industria.Pipeline.Steps.{
  feed, infer_all, held, take_sample-feed, take_sample_rest, pop_raw, stuck_raw,
}
use pipe_ai_rk3588_industria.Pipeline.Through.{IsPrefix_trans, infer_all-IsPrefix, Through, kept_by}

module _ (fl : Floats) (st : Stages fl) (ss : List (RawSample fl)) where
  pub quit_raw :
      (p : Pipeline fl)
      → p.raw_queue.items ≡ []
      → p.raw_queue.closed ≡ true
      → preprocess_step fl st popping p ≡ some (record p { preprocess_worker = ended })
  unfolding preprocess_step pop
  quit_raw p i shut = rw (i, shut)

  pub ended_step :
      (p : Pipeline fl)
      → preprocess_step fl st ended p ≡ some (record p { preprocess_worker = popping })
  unfolding preprocess_step
  ended_step p = refl

  pub refuse_tensor :
      (x : ModelInput fl) (p : Pipeline fl)
      → p.tensor_queue.closed ≡ true
      → preprocess_step fl st (pushing x) p ≡ some (record p { preprocess_worker = popping })
  unfolding preprocess_step emplace_impl
  refuse_tensor x p shut = rw shut

  pub push_tensor :
      (x : ModelInput fl) (p q : Pipeline fl)
      → p.tensor_queue.closed ≡ false
      → preprocess_step fl st (pushing x) p ≡ some q
      → preprocess_step fl st (pushing x) p
        ≡ some (record p {
          tensor_queue = record p.tensor_queue { items = p.tensor_queue.items ++ (x ∷ []) };
          preprocess_worker = popping;
        })
  unfolding preprocess_step emplace_impl
  push_tensor x p q live h = ground arith

  -- Behind a change of the first worker, its queue and its window.
  refed :
      (p r : Pipeline fl) (t : Through fl st ss p)
      → r.tensor_queue ≡ p.tensor_queue
      → r.result_queue ≡ p.result_queue
      → r.inference_worker ≡ p.inference_worker
      → r.window_id ≡ p.window_id
      → r.delivered ≡ p.delivered
      → (p.tensor_queue.closed ≡ false
          → (ys : List (RawSample fl))
          → t.tensors_in
              ++ (held fl st r.preprocess_worker
                  ++ feed fl st r.window_buffer (r.raw_queue.items ++ ys))
            ≡ feed fl st [] (ss ++ ys))
      → Through fl st ss r
  refed p r t tensor result worker id sent feeding = record {
    tensors_in = t.tensors_in;
    results_in = t.results_in;
    fed = t.fed;
    feeding = λ live. feeding (sym (ap (λ z. z.closed) tensor) ∙ live);
    inferred = t.inferred;
    inferring = λ live zs.
        rw (tensor, worker, id) (t.inferring (sym (ap (λ z. z.closed) result) ∙ live) zs);
    sent = rw (sent, result) t.sent;
  }

  pub preprocess-Through :
      (w : Stand (ModelInput fl)) (l : List (RawSample fl)) (p q : Pipeline fl)
      → p.preprocess_worker ≡ w
      → p.raw_queue.items ≡ l
      → Through fl st ss p
      → preprocess_step fl st w p ≡ some q
      → Through fl st ss q
  preprocess-Through popping [] p q e i t h = elim (Bool-cases p.raw_queue.closed) [
    | inr live ↦ cc (stuck_raw fl st p i live)
    | inl shut ↦
        kept_by fl st ss _ q _ (quit_raw p i shut)
          (refed p _ t refl refl refl refl refl (λ live ys. rw e at (t.feeding live ys))) h
  ]
  preprocess-Through popping (s ∷ l) p q e i t h =
      let p' : Pipeline fl = record p { raw_queue = record p.raw_queue { items = l } } in
      let (raw, tensor, result, worker, id, sent) = take_sample_rest fl st s p' in
      kept_by fl st ss _ q (take_sample fl st s p') (pop_raw fl st s l p i)
        (refed p (take_sample fl st s p') t tensor result worker id sent (λ live ys.
          rw (raw, take_sample-feed fl st s p' (l ++ ys)) (rw (e, i) at (t.feeding live ys))))
        h
  preprocess-Through (pushing x) l p q e i t h = elim (Bool-cases p.tensor_queue.closed) [
    | inl shut ↦
        kept_by fl st ss _ q _ (refuse_tensor x p shut)
          (refed p _ t refl refl refl refl refl (λ live ys. absurd (cc (shut, live)))) h
    | inr live ↦
        let more = t.tensors_in ++ (x ∷ []) in
        let feeds = λ (ys : List (RawSample fl)).
          append_assoc t.tensors_in (x ∷ []) (feed fl st p.window_buffer (p.raw_queue.items ++ ys))
          ∙ (rw e at (t.feeding live ys)) in
        kept_by fl st ss _ q _ (push_tensor x p q live h)
          (record {
            tensors_in = more;
            results_in = t.results_in;
            fed = (
              feed fl st p.window_buffer (p.raw_queue.items ++ []),
              feeds [] ∙ ap (feed fl st []) (append-nil ss),
            );
            feeding = λ _ ys. feeds ys;
            inferred =
                IsPrefix_trans t.results_in (infer_all fl st 0 t.tensors_in)
                  (infer_all fl st 0 more) t.inferred
                  (infer_all-IsPrefix fl st 0 t.tensors_in more (x ∷ [], refl));
            inferring = λ open_r zs.
                rw
                  (
                    append_assoc p.tensor_queue.items (x ∷ []) zs,
                    append_assoc t.tensors_in (x ∷ []) zs,
                  )
                  (t.inferring open_r (x ∷ zs));
            sent = t.sent;
          })
          h
  ]
  preprocess-Through ended l p q e i t h =
      kept_by fl st ss _ q (record p { preprocess_worker = popping }) (ended_step p)
        (refed p _ t refl refl refl refl refl (λ live ys. rw e at (t.feeding live ys))) h
