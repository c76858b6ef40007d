-- ===== src/Pipeline/Shutdown/Outcome.antt =====
-- What a worker's step does to its own queue and to the next one, open or closed
-- (pipeline/pipeline.cpp).
use pipe_ai_rk3588_industria.Prelude.{
  ◌≡◌, ◌⊎◌, refl, sym, ap, ◌∙◌, inl, inr, Bool, true, false, some, List, [], ◌∷◌, ◌++◌, arith, leb,
  Bool-cases, Option-cases, length,
}
use mathlib.Core.Path.{subst}
use mathlib.Core.Option.{some-injective}
use pipe_ai_rk3588_industria.Floats.{Floats}
use pipe_ai_rk3588_industria.Types.{RawSample, ModelInput, InferenceResult, target_length}
use pipe_ai_rk3588_industria.Queue.{Queue, pop, emplace_impl}
use pipe_ai_rk3588_industria.Pipeline.{
  Stages, Stand, popping, pushing, ended, Pipeline, preprocess, take_sample, preprocess_step,
  inference_step, post_step,
}
use pipe_ai_rk3588_industria.Pipeline.Steps.{pop_raw, take_sample_rest, stuck_raw}
use pipe_ai_rk3588_industria.Pipeline.Passage.First.{quit_raw}
use pipe_ai_rk3588_industria.Pipeline.Shutdown.{is_out}

module _ (fl : Floats) where
  abbrev IsDrained {ℓ} : {A : Type ℓ} → Queue A → Type ℓ
  IsDrained q = (q.closed ≡ true) × (q.items ≡ [])

  -- A worker that is at the head of its `while (running_)` has found its queue closed and empty, or has
  -- never taken anything from it: then the first queue has all the samples that were accepted, no
  -- window has a number yet, and no result was delivered.
  pub record IsSpent (ss : List (RawSample fl)) (p : Pipeline fl) : Type 0 where
    pub raw_spent :
        is_out p.preprocess_worker ≡ true
        → IsDrained p.raw_queue ⊎ ((p.raw_queue.items ≡ ss) × (p.window_buffer ≡ []))
    pub tensor_spent :
        is_out p.inference_worker ≡ true → IsDrained p.tensor_queue ⊎ (p.window_id ≡ 0)
    pub result_spent : p.post_ended ≡ true → IsDrained p.result_queue ⊎ (p.delivered ≡ [])

  -- No worker opens or closes a queue, and each changes its own stand only.
  pub record SameClosing (p q : Pipeline fl) : Type 0 where
    pub raw_same : q.raw_queue.closed ≡ p.raw_queue.closed
    pub tensor_same : q.tensor_queue.closed ≡ p.tensor_queue.closed
    pub result_same : q.result_queue.closed ≡ p.result_queue.closed

  abbrev pub Outcome : List (RawSample fl) → Pipeline fl → Pipeline fl → Type 0
  Outcome ss p q = IsSpent ss q × SameClosing p q

  module _ (st : Stages fl) where
    take_sample_out :
        (s : RawSample fl) (p : Pipeline fl)
        → (is_out (take_sample fl st s p).preprocess_worker ≡ false)
          × ((take_sample fl st s p).post_ended ≡ p.post_ended)
    unfolding take_sample
    take_sample_out s p =
        let window = p.window_buffer ++ (s ∷ []) in
        elim (Bool-cases (leb target_length (length window))) [
          | inr short ↦ rw short (refl, refl)
          | inl full ↦ elim (Option-cases (preprocess fl st window)) [
            | inl bad ↦ rw (full, bad) (refl, refl)
            | inr (x, good) ↦ rw (full, good) (refl, refl)
          ]
        ]

    abbrev pub FirstOutcome : List (RawSample fl) → Pipeline fl → Pipeline fl → Type 0
    FirstOutcome ss p q =
        Outcome ss p q × (q.inference_worker ≡ p.inference_worker) × (q.post_ended ≡ p.post_ended)

    pub preprocess-Outcome :
        (ss : List (RawSample fl)) (w : Stand (ModelInput fl)) (l : List (RawSample fl))
        (p q : Pipeline fl)
        → p.preprocess_worker ≡ w
        → p.raw_queue.items ≡ l
        → IsSpent ss p
        → preprocess_step fl st w p ≡ some q
        → FirstOutcome ss p q
    unfolding preprocess_step emplace_impl
    preprocess-Outcome ss popping [] p q e i s h = elim (Bool-cases p.raw_queue.closed) [
      | inr live ↦ absurd (cc (stuck_raw fl st p i live))
      | inl shut ↦
          subst (FirstOutcome ss p) (some-injective _ _ (sym (quit_raw fl st [] p i shut) ∙ h)) (
            (
              record {
                raw_spent = λ _. inl (shut, i);
                tensor_spent = s.tensor_spent;
                result_spent = s.result_spent;
              },
              record { raw_same = refl; tensor_same = refl; result_same = refl },
            ),
            refl,
            refl,
          )
    ]
    preprocess-Outcome ss popping (x ∷ l) p q e i s h =
        let p' : Pipeline fl = record p { raw_queue = record p.raw_queue { items = l } } in
        let (raw, tensor, result, worker, id, sent) = take_sample_rest fl st x p' in
        let (inside, post) = take_sample_out x p' in
        subst (FirstOutcome ss p) (some-injective _ _ (sym (pop_raw fl st x l p i) ∙ h)) (
          (
            record {
              raw_spent = λ out. absurd (cc (out, inside));
              tensor_spent = λ out. rw (tensor, id) (s.tensor_spent (ap is_out (sym worker) ∙ out));
              result_spent = λ out. rw (result, sent) (s.result_spent (sym post ∙ out));
            },
            record {
              raw_same = ap (λ z. z.closed) raw;
              tensor_same = ap (λ z. z.closed) tensor;
              result_same = ap (λ z. z.closed) result;
            },
          ),
          worker,
          post,
        )
    preprocess-Outcome ss (pushing x) l p q e i s h = ground arith
    preprocess-Outcome ss ended l p q e i s h = ground arith

    pub inference-Outcome :
        (ss : List (RawSample fl)) (w : Stand (InferenceResult fl)) (p q : Pipeline fl)
        → p.inference_worker ≡ w
        → IsSpent ss p
        → inference_step fl st w p ≡ some q
        → Outcome ss p q
          × (q.preprocess_worker ≡ p.preprocess_worker)
          × (q.post_ended ≡ p.post_ended)
    unfolding inference_step pop emplace_impl
    inference-Outcome ss popping p q e s h = ground arith
    inference-Outcome ss (pushing r) p q e s h = ground arith
    inference-Outcome ss ended p q e s h = ground arith

  pub post-Outcome :
      (ss : List (RawSample fl)) (w : Bool) (p q : Pipeline fl)
      → p.post_ended ≡ w
      → IsSpent ss p
      → post_step fl w p ≡ some q
      → Outcome ss p q
        × (q.preprocess_worker ≡ p.preprocess_worker)
        × (q.inference_worker ≡ p.inference_worker)
  unfolding post_step pop
  post-Outcome ss false p q e s h = ground arith
  post-Outcome ss true p q e s h = ground arith
