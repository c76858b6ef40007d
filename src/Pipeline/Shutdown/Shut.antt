-- ===== src/Pipeline/Shutdown/Shut.antt =====
-- The workers' steps once all three queues are closed (pipeline/pipeline.cpp).
use pipe_ai_rk3588_industria.Prelude.{
  ℕ, ◌+◌, ◌*◌, ◌≤◌, ◌<◌, ◌≡◌, refl, sym, ap, ◌∙◌, inl, inr, Bool, true, false, some, List, [], ◌∷◌,
  ◌++◌, arith, leb, if◌then◌else◌, Bool-cases, Option-cases, length,
}
use mathlib.Core.Path.{subst}
use mathlib.Core.Option.{some-injective}
use pipe_ai_rk3588_industria.Floats.{Floats}
use pipe_ai_rk3588_industria.Types.{RawSample, ModelInput, InferenceResult, target_length}
use pipe_ai_rk3588_industria.Queue.{pop, emplace_impl}
use pipe_ai_rk3588_industria.Pipeline.{
  Stages, Stand, popping, pushing, ended, Pipeline, preprocess, take_sample, preprocess_step,
  inference_step, post_step,
}
use pipe_ai_rk3588_industria.Pipeline.Steps.{pop_raw, take_sample_rest}
use pipe_ai_rk3588_industria.Pipeline.Passage.First.{quit_raw, refuse_tensor, ended_step}
use pipe_ai_rk3588_industria.Pipeline.Shutdown.{is_out}

-- The steps that a worker can take before it pops again, or is out of its loop.
abbrev pub cost {ℓ} : {A : Type ℓ} → Stand A → ℕ
cost popping = 1
cost (pushing x) = 2
cost ended = 0

module _ (fl : Floats) where
  pub record IsShut (p : Pipeline fl) : Type 0 where
    pub raw_closed : p.raw_queue.closed ≡ true
    pub tensor_closed : p.tensor_queue.closed ≡ true
    pub result_closed : p.result_queue.closed ≡ true

  abbrev pub raw_load : Pipeline fl → ℕ
  raw_load p = 2 * length p.raw_queue.items + cost p.preprocess_worker

  abbrev pub tensor_load : Pipeline fl → ℕ
  tensor_load p = 2 * length p.tensor_queue.items + cost p.inference_worker

  abbrev pub result_load : Pipeline fl → ℕ
  result_load p = 2 * length p.result_queue.items + (if p.post_ended then 0 else 1)

  -- What a step of the first worker does: it empties its own queue, and touches no other.
  pub record IsFirst (p q : Pipeline fl) : Type 0 where
    pub shut : IsShut q
    pub tensor_same : q.tensor_queue ≡ p.tensor_queue
    pub result_same : q.result_queue ≡ p.result_queue
    pub inference_same : q.inference_worker ≡ p.inference_worker
    pub post_same : q.post_ended ≡ p.post_ended
    pub shorter : length q.raw_queue.items ≤ length p.raw_queue.items
    pub lighter : is_out p.preprocess_worker ≡ false → raw_load q < raw_load p

  IsFirst-of :
      (p : Pipeline fl) (w : Stand (ModelInput fl))
      → IsShut p
      → (is_out p.preprocess_worker ≡ false → cost w < cost p.preprocess_worker)
      → IsFirst p (record p { preprocess_worker = w })
  IsFirst-of p w s less = record {
    shut = record {
      raw_closed = s.raw_closed;
      tensor_closed = s.tensor_closed;
      result_closed = s.result_closed;
    };
    tensor_same = refl;
    result_same = refl;
    inference_same = refl;
    post_same = refl;
    shorter = omega arith;
    lighter = λ out. omega (arith, less out);
  }

  module _ (st : Stages fl) where
    take_sample_rest' :
        (s : RawSample fl) (p : Pipeline fl)
        → ((take_sample fl st s p).post_ended ≡ p.post_ended)
          × (cost (take_sample fl st s p).preprocess_worker ≤ 2)
    unfolding take_sample
    take_sample_rest' s p =
        let window = p.window_buffer ++ (s ∷ []) in
        elim (Bool-cases (leb target_length (length window))) [
          | inr short ↦ rw short (refl, omega arith)
          | inl full ↦ elim (Option-cases (preprocess fl st window)) [
            | inl bad ↦ rw (full, bad) (refl, omega arith)
            | inr (x, good) ↦ rw (full, good) (refl, omega arith)
          ]
        ]

    pub preprocess_step-IsFirst :
        (w : Stand (ModelInput fl)) (l : List (RawSample fl)) (p q : Pipeline fl)
        → p.preprocess_worker ≡ w
        → p.raw_queue.items ≡ l
        → IsShut p
        → preprocess_step fl st w p ≡ some q
        → IsFirst p q
    preprocess_step-IsFirst popping [] p q e i s h =
        subst (IsFirst p) (some-injective _ _ (sym (quit_raw fl st [] p i s.raw_closed) ∙ h))
          (IsFirst-of p ended s (λ _. rw e (omega arith)))
    preprocess_step-IsFirst popping (x ∷ l) p q e i s h =
        let p' : Pipeline fl = record p { raw_queue = record p.raw_queue { items = l } } in
        let (raw, tensor, result, worker, id, sent) = take_sample_rest fl st x p' in
        let (post, small) = take_sample_rest' x p' in
        subst (IsFirst p) (some-injective _ _ (sym (pop_raw fl st x l p i) ∙ h)) (record {
          shut = record {
            raw_closed = ap (λ z. z.closed) raw ∙ s.raw_closed;
            tensor_closed = ap (λ z. z.closed) tensor ∙ s.tensor_closed;
            result_closed = ap (λ z. z.closed) result ∙ s.result_closed;
          };
          tensor_same = tensor;
          result_same = result;
          inference_same = worker;
          post_same = post;
          shorter = rw (raw, i) (omega arith);
          lighter = λ _. omega (arith, small, ap cost e, ap (λ z. length z.items) raw, ap length i);
        })
    preprocess_step-IsFirst (pushing x) l p q e i s h =
        subst (IsFirst p)
          (some-injective _ _ (sym (refuse_tensor fl st [] x p s.tensor_closed) ∙ h))
          (IsFirst-of p popping s (λ _. rw e (omega arith)))
    preprocess_step-IsFirst ended l p q e i s h =
        subst (IsFirst p) (some-injective _ _ (sym (ended_step fl st [] p) ∙ h))
          (IsFirst-of p popping s (λ out. absurd (cc (out, e))))

  -- What a step of the second worker does.
  pub record IsSecond (p q : Pipeline fl) : Type 0 where
    pub shut : IsShut q
    pub raw_same : q.raw_queue ≡ p.raw_queue
    pub result_same : q.result_queue ≡ p.result_queue
    pub preprocess_same : q.preprocess_worker ≡ p.preprocess_worker
    pub post_same : q.post_ended ≡ p.post_ended
    pub shorter : length q.tensor_queue.items ≤ length p.tensor_queue.items
    pub lighter : is_out p.inference_worker ≡ false → tensor_load q < tensor_load p

  pub inference_step-IsSecond :
      (st : Stages fl) (w : Stand (InferenceResult fl)) (p q : Pipeline fl)
      → p.inference_worker ≡ w
      → IsShut p
      → inference_step fl st w p ≡ some q
      → IsSecond p q
  unfolding inference_step pop emplace_impl
  inference_step-IsSecond st popping p q e s h = ground arith
  inference_step-IsSecond st (pushing r) p q e s h = ground arith
  inference_step-IsSecond st ended p q e s h = ground arith

  -- What a step of the third worker does.
  pub record IsThird (p q : Pipeline fl) : Type 0 where
    pub shut : IsShut q
    pub raw_same : q.raw_queue ≡ p.raw_queue
    pub tensor_same : q.tensor_queue ≡ p.tensor_queue
    pub preprocess_same : q.preprocess_worker ≡ p.preprocess_worker
    pub inference_same : q.inference_worker ≡ p.inference_worker
    pub shorter : length q.result_queue.items ≤ length p.result_queue.items
    pub lighter : p.post_ended ≡ false → result_load q < result_load p

  pub post_step-IsThird :
      (w : Bool) (p q : Pipeline fl)
      → p.post_ended ≡ w
      → IsShut p
      → post_step fl w p ≡ some q
      → IsThird p q
  unfolding post_step pop
  post_step-IsThird false p q e s h = ground arith
  post_step-IsThird true p q e s h = ground arith
