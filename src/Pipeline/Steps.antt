-- ===== src/Pipeline/Steps.antt =====
-- One step of a worker leaves what will be delivered as it is (pipeline/pipeline.cpp).
use pipe_ai_rk3588_industria.Prelude.{
  ℕ, ◌+◌, ◌≡◌, refl, sym, ap, ◌∙◌, inl, inr, Bool, true, false, Option, none, some, List, [], ◌∷◌,
  ◌++◌, map, append_assoc, arith, leb, if◌then◌else◌, Bool-cases, Option-cases, length,
}
use mathlib.Core.Path.{subst}
use mathlib.Core.Option.{some-injective}
use pipe_ai_rk3588_industria.Floats.{Floats}
use pipe_ai_rk3588_industria.Types.{RawSample, ModelInput, InferenceResult, target_length}
use pipe_ai_rk3588_industria.Queue.{pop, emplace_impl}
use pipe_ai_rk3588_industria.Classifier.{classify}
use pipe_ai_rk3588_industria.Pipeline.{
  Stages, Stand, popping, pushing, ended, Pipeline, preprocess, infer_window, take_sample,
  preprocess_step, inference_step, post_step,
}

module _ (fl : Floats) (st : Stages fl) where
  abbrev pub consed {ℓ} : {A : Type ℓ} → Option A → List A → List A
  consed none xs = xs
  consed (some x) xs = x ∷ xs

  -- The windows of a stream of samples, each preprocessed: a window closes with its last sample.
  unfoldable pub feed : List (RawSample fl) → List (RawSample fl) → List (ModelInput fl)
  feed buffer [] = []
  feed buffer (s ∷ ss) =
      let window = buffer ++ (s ∷ []) in
      let full = consed (preprocess fl st window) (feed [] ss) in
      let more = feed window ss in if leb target_length (length window) then full else more

  -- Numbered from `k + 1`.
  unfoldable pub infer_all : ℕ → List (ModelInput fl) → List (InferenceResult fl)
  infer_all k [] = []
  infer_all k (x ∷ xs) = infer_window fl st (k + 1) x ∷ infer_all (k + 1) xs

  -- One thread that does everything, one sample at a time.
  abbrev pub expected : List (RawSample fl) → List (InferenceResult fl)
  expected ss = map (classify fl) (infer_all 0 (feed [] ss))

  abbrev pub held {ℓ} : {A : Type ℓ} → Stand A → List A
  held popping = []
  held (pushing x) = x ∷ []
  held ended = []

  -- What is on its way, if `ys` are the samples that come next.
  abbrev pub tensors : Pipeline fl → List (RawSample fl) → List (ModelInput fl)
  tensors p ys =
      p.tensor_queue.items
      ++ (held p.preprocess_worker ++ feed p.window_buffer (p.raw_queue.items ++ ys))

  abbrev pub results : Pipeline fl → List (RawSample fl) → List (InferenceResult fl)
  results p ys =
      p.result_queue.items ++ (held p.inference_worker ++ infer_all p.window_id (tensors p ys))

  abbrev pub outcome : Pipeline fl → List (RawSample fl) → List (InferenceResult fl)
  outcome p ys = p.delivered ++ map (classify fl) (results p ys)

  pub record IsOpen (p : Pipeline fl) : Type 0 where
    pub raw_open : p.raw_queue.closed ≡ false
    pub tensor_open : p.tensor_queue.closed ≡ false
    pub result_open : p.result_queue.closed ≡ false

  abbrev pub Keeps : Pipeline fl → Pipeline fl → Type 0
  Keeps p q = IsOpen q × ((ys : List (RawSample fl)) → outcome q ys ≡ outcome p ys)

  pub Keeps-of :
      (o : Option (Pipeline fl)) (p q r : Pipeline fl)
      → o ≡ some r
      → Keeps p r
      → o ≡ some q
      → Keeps p q
  Keeps-of o p q r made k h = subst (Keeps p) (some-injective _ _ (sym made ∙ h)) k

  pub take_sample-feed :
      (s : RawSample fl) (p : Pipeline fl) (zs : List (RawSample fl))
      → let q = take_sample fl st s p in
        held q.preprocess_worker ++ feed q.window_buffer zs ≡ feed p.window_buffer (s ∷ zs)
  unfolding take_sample feed
  take_sample-feed s p zs =
      let window = p.window_buffer ++ (s ∷ []) in
      elim (Bool-cases (leb target_length (length window))) [
        | inr short ↦ rw short
        | inl full ↦ elim (Option-cases (preprocess fl st window)) [
          | inl bad ↦ rw (full, bad)
          | inr (x, good) ↦ rw (full, good)
        ]
      ]

  pub take_sample_rest :
      (s : RawSample fl) (p : Pipeline fl)
      → let q = take_sample fl st s p in
        (q.raw_queue ≡ p.raw_queue)
        × (q.tensor_queue ≡ p.tensor_queue)
        × (q.result_queue ≡ p.result_queue)
        × (q.inference_worker ≡ p.inference_worker)
        × (q.window_id ≡ p.window_id)
        × (q.delivered ≡ p.delivered)
  unfolding take_sample
  take_sample_rest s p =
      elim (Bool-cases (leb target_length (length (p.window_buffer ++ (s ∷ []))))) [
        | inl full ↦ rw full (refl, refl, refl, refl, refl, refl)
        | inr short ↦ rw short (refl, refl, refl, refl, refl, refl)
      ]

  -- The first worker's step, from its stand and the items that it finds.
  pub pop_raw :
      (s : RawSample fl) (l : List (RawSample fl)) (p : Pipeline fl)
      → p.raw_queue.items ≡ s ∷ l
      → preprocess_step fl st popping p
        ≡ some (take_sample fl st s (record p { raw_queue = record p.raw_queue { items = l } }))
  unfolding preprocess_step pop
  pop_raw s l p i = elim (Bool-cases p.raw_queue.closed) [
    | inl shut ↦ rw (i, shut)
    | inr live ↦ rw (i, live)
  ]

  pub stuck_raw :
      (p : Pipeline fl)
      → p.raw_queue.items ≡ []
      → p.raw_queue.closed ≡ false
      → preprocess_step fl st popping p ≡ none
  unfolding preprocess_step pop
  stuck_raw p i live = rw (i, live)

  push_tensor :
      (x : ModelInput fl) (p q : Pipeline fl)
      → IsOpen p
      → preprocess_step fl st (pushing x) p ≡ some q
      → preprocess_step fl st (pushing x) p
        ≡ some (record p {
          tensor_queue = record p.tensor_queue { items = p.tensor_queue.items ++ (x ∷ []) };
          preprocess_worker = popping;
        })
  unfolding preprocess_step emplace_impl
  push_tensor x p q open_p h = ground arith

  pub preprocess-Keeps :
      (w : Stand (ModelInput fl)) (l : List (RawSample fl)) (p q : Pipeline fl)
      → p.preprocess_worker ≡ w
      → p.raw_queue.items ≡ l
      → IsOpen p
      → preprocess_step fl st w p ≡ some q
      → Keeps p q
  unfolding preprocess_step
  preprocess-Keeps popping [] p q e i open_p h = cc (stuck_raw p i open_p.raw_open)
  preprocess-Keeps popping (s ∷ l) p q e i open_p h =
      let p' : Pipeline fl = record p { raw_queue = record p.raw_queue { items = l } } in
      let (raw, tensor, result, worker, id, sent) = take_sample_rest s p' in
      Keeps-of _ p q (take_sample fl st s p') (pop_raw s l p i)
        (
          record {
            raw_open = ap (λ z. z.closed) raw ∙ open_p.raw_open;
            tensor_open = ap (λ z. z.closed) tensor ∙ open_p.tensor_open;
            result_open = ap (λ z. z.closed) result ∙ open_p.result_open;
          },
          λ ys. rw (raw, tensor, result, worker, id, sent, take_sample-feed s p' (l ++ ys), e, i),
        )
        h
  preprocess-Keeps (pushing x) l p q e i open_p h =
      Keeps-of _ p q _ (push_tensor x p q open_p h)
        (
          assumption,
          λ ys. rw (
            e,
            append_assoc p.tensor_queue.items (x ∷ [])
                (feed p.window_buffer (p.raw_queue.items ++ ys)),
          ),
        )
        h
  preprocess-Keeps ended l p q e i open_p h =
      Keeps-of _ p q (record p { preprocess_worker = popping }) refl (assumption, λ ys. rw e) h

  pub pop_tensor :
      (x : ModelInput fl) (l : List (ModelInput fl)) (p : Pipeline fl)
      → p.tensor_queue.items ≡ x ∷ l
      → inference_step fl st popping p
        ≡ some (record p {
          tensor_queue = record p.tensor_queue { items = l };
          window_id = p.window_id + 1;
          inference_worker = pushing (infer_window fl st (p.window_id + 1) x);
        })
  unfolding inference_step pop
  pop_tensor x l p i = elim (Bool-cases p.tensor_queue.closed) [
    | inl shut ↦ rw (i, shut)
    | inr live ↦ rw (i, live)
  ]

  pub stuck_tensor :
      (p : Pipeline fl)
      → p.tensor_queue.items ≡ []
      → p.tensor_queue.closed ≡ false
      → inference_step fl st popping p ≡ none
  unfolding inference_step pop
  stuck_tensor p i live = rw (i, live)

  push_result :
      (r : InferenceResult fl) (p q : Pipeline fl)
      → IsOpen p
      → inference_step fl st (pushing r) p ≡ some q
      → inference_step fl st (pushing r) p
        ≡ some (record p {
          result_queue = record p.result_queue { items = p.result_queue.items ++ (r ∷ []) };
          inference_worker = popping;
        })
  unfolding inference_step emplace_impl
  push_result r p q open_p h = ground arith

  pub inference-Keeps :
      (w : Stand (InferenceResult fl)) (l : List (ModelInput fl)) (p q : Pipeline fl)
      → p.inference_worker ≡ w
      → p.tensor_queue.items ≡ l
      → IsOpen p
      → inference_step fl st w p ≡ some q
      → Keeps p q
  unfolding inference_step infer_all
  inference-Keeps popping [] p q e i open_p h = cc (stuck_tensor p i open_p.tensor_open)
  inference-Keeps popping (x ∷ l) p q e i open_p h =
      Keeps-of _ p q _ (pop_tensor x l p i) (assumption, λ ys. rw (e, i)) h
  inference-Keeps (pushing r) l p q e i open_p h =
      Keeps-of _ p q _ (push_result r p q open_p h)
        (
          assumption,
          λ ys. rw (
            e,
            append_assoc p.result_queue.items (r ∷ []) (infer_all p.window_id (tensors p ys)),
          ),
        )
        h
  inference-Keeps ended l p q e i open_p h =
      Keeps-of _ p q (record p { inference_worker = popping }) refl (assumption, λ ys. rw e) h

  pub pop_result :
      (r : InferenceResult fl) (l : List (InferenceResult fl)) (p : Pipeline fl)
      → p.result_queue.items ≡ r ∷ l
      → post_step fl false p
        ≡ some (record p {
          result_queue = record p.result_queue { items = l };
          post_ended = false;
          delivered = p.delivered ++ (classify fl r ∷ []);
        })
  unfolding post_step pop
  pop_result r l p i = elim (Bool-cases p.result_queue.closed) [
    | inl shut ↦ rw (i, shut)
    | inr live ↦ rw (i, live)
  ]

  pub stuck_result :
      (p : Pipeline fl)
      → p.result_queue.items ≡ []
      → p.result_queue.closed ≡ false
      → post_step fl false p ≡ none
  unfolding post_step pop
  stuck_result p i live = rw (i, live)

  pub post-Keeps :
      (w : Bool) (l : List (InferenceResult fl)) (p q : Pipeline fl)
      → p.result_queue.items ≡ l
      → IsOpen p
      → post_step fl w p ≡ some q
      → Keeps p q
  unfolding post_step
  post-Keeps false [] p q i open_p h = cc (stuck_result p i open_p.result_open)
  post-Keeps false (r ∷ l) p q i open_p h =
      Keeps-of _ p q _ (pop_result r l p i)
        (assumption, λ ys. rw (i, append_assoc p.delivered (classify fl r ∷ []) _)) h
  post-Keeps true l p q i open_p h =
      Keeps-of _ p q (record p { post_ended = false }) refl (assumption, λ ys. refl) h
