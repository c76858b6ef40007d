-- ===== src/Pipeline/Progress.antt =====
-- The workers' turns: none is stuck while there is work, and each does some (pipeline/pipeline.cpp).
use pipe_ai_rk3588_industria.Prelude.{
  ℕ, ◌+◌, ◌*◌, ◌≤◌, ◌<◌, ◌≡◌, refl, sym, ◌∙◌, inl, inr, Option, none, some, List, [], ◌∷◌, ◌++◌,
  arith, leb, if◌then◌else◌, Bool-cases, Option-cases, length, length-append,
}
use mathlib.Core.Path.{subst}
use mathlib.Core.Option.{some-injective}
use pipe_ai_rk3588_industria.Floats.{Floats}
use pipe_ai_rk3588_industria.Types.{target_length, RawSample, ModelInput, InferenceResult}
use pipe_ai_rk3588_industria.Queue.{pop, emplace_impl}
use pipe_ai_rk3588_industria.Pipeline.{
  Stages, Stand, popping, pushing, ended, Pipeline, take_sample, preprocess, preprocess_step,
  inference_step, post_step,
}
use pipe_ai_rk3588_industria.Pipeline.Steps.{
  take_sample_rest, Keeps, preprocess-Keeps, inference-Keeps, post-Keeps, pop_raw, stuck_raw, held,
  IsOpen,
}

-- Which of the three workers goes on.
pub data Turn : Type 0 where
  preprocess_turn inference_turn post_turn : Turn

module _ (fl : Floats) (st : Stages fl) where
  abbrev pub turn : Turn → Pipeline fl → Option (Pipeline fl)
  turn preprocess_turn p = preprocess_step fl st p.preprocess_worker p
  turn inference_turn p = inference_step fl st p.inference_worker p
  turn post_turn p = post_step fl p.post_ended p

  abbrev pub weight {ℓ} : {A : Type ℓ} → ℕ → Stand A → ℕ
  weight n popping = 0
  weight n (pushing x) = n
  weight n ended = 1

  -- A bound for the turns that are left until all is delivered.
  unfoldable pub work : Pipeline fl → ℕ
  work p =
      5 * length p.raw_queue.items
      + weight 4 p.preprocess_worker
      + 3 * length p.tensor_queue.items
      + weight 2 p.inference_worker
      + length p.result_queue.items
      + (if p.post_ended then 1 else 0)

  abbrev pub AllWait : Pipeline fl → Type 0
  AllWait p = (t : Turn) → turn t p ≡ none

  abbrev pub HasRoom : Pipeline fl → Type 0
  HasRoom p = (0 < p.tensor_queue.capacity) × (0 < p.result_queue.capacity)

  pub post_stuck :
      (p : Pipeline fl) → post_step fl p.post_ended p ≡ none → p.result_queue.items ≡ []
  unfolding post_step pop
  post_stuck p h = ground arith

  pub inference_stuck :
      (p : Pipeline fl)
      → 0 < p.result_queue.capacity
      → p.result_queue.items ≡ []
      → inference_step fl st p.inference_worker p ≡ none
      → (p.tensor_queue.items ≡ []) × (held fl st p.inference_worker ≡ [])
  unfolding inference_step pop emplace_impl
  inference_stuck p room e h = ground arith

  pub preprocess_stuck :
      (p : Pipeline fl)
      → 0 < p.tensor_queue.capacity
      → p.tensor_queue.items ≡ []
      → preprocess_step fl st p.preprocess_worker p ≡ none
      → (p.raw_queue.items ≡ []) × (held fl st p.preprocess_worker ≡ [])
  unfolding preprocess_step pop emplace_impl
  preprocess_stuck p room e h = ground arith

  post_work :
      (p q : Pipeline fl) → IsOpen fl st p → post_step fl p.post_ended p ≡ some q → work q < work p
  unfolding post_step pop work
  post_work p q o h = ground arith

  inference_work :
      (w : Stand (InferenceResult fl)) (p q : Pipeline fl)
      → p.inference_worker ≡ w
      → IsOpen fl st p
      → inference_step fl st w p ≡ some q
      → work q < work p
  unfolding inference_step pop emplace_impl work
  inference_work popping p q e o h = ground arith
  inference_work (pushing r) p q e o h = ground (arith, length-append p.result_queue.items (r ∷ []))
  inference_work ended p q e o h = ground arith

  work-take_sample :
      (s : RawSample fl) (p : Pipeline fl)
      → p.preprocess_worker ≡ popping
      → work (take_sample fl st s p) ≤ 4 + work p
  unfolding take_sample work
  work-take_sample s p w =
      let window = p.window_buffer ++ (s ∷ []) in
      elim (Bool-cases (leb target_length (length window))) [
        | inr short ↦ rw (short, w) (omega arith)
        | inl full ↦ elim (Option-cases (preprocess fl st window)) [
          | inl bad ↦ rw (full, bad, w) (omega arith)
          | inr (x, good) ↦ rw (full, good, w) (omega arith)
        ]
      ]

  popped_work :
      (s : RawSample fl) (l : List (RawSample fl)) (p : Pipeline fl)
      → p.raw_queue.items ≡ s ∷ l
      → work (record p { raw_queue = record p.raw_queue { items = l } }) + 5 ≡ work p
  unfolding work
  popped_work s l p i = rw i (omega arith)

  preprocess_work :
      (w : Stand (ModelInput fl)) (l : List (RawSample fl)) (p q : Pipeline fl)
      → p.preprocess_worker ≡ w
      → p.raw_queue.items ≡ l
      → IsOpen fl st p
      → preprocess_step fl st w p ≡ some q
      → work q < work p
  unfolding preprocess_step emplace_impl work
  preprocess_work popping [] p q e i o h = cc (stuck_raw fl st p i o.raw_open)
  preprocess_work popping (s ∷ l) p q e i o h =
      let p' : Pipeline fl = record p { raw_queue = record p.raw_queue { items = l } } in
      let same : take_sample fl st s p' ≡ q =
        some-injective _ _ (sym (pop_raw fl st s l p i) ∙ h) in
      subst (λ z. work z < work p) same
        (omega (arith, work-take_sample s p' e, popped_work s l p i))
  preprocess_work (pushing x) l p q e i o h =
      ground (arith, length-append p.tensor_queue.items (x ∷ []))
  preprocess_work ended l p q e i o h = ground arith

  -- One turn keeps the queues open and what will be delivered, and does some work.
  pub turn-Keeps :
      (t : Turn) (p q : Pipeline fl)
      → IsOpen fl st p
      → turn t p ≡ some q
      → Keeps fl st p q × (work q < work p)
  turn-Keeps preprocess_turn p q o h =
      (preprocess-Keeps fl st _ _ p q refl refl o h, preprocess_work _ _ p q refl refl o h)
  turn-Keeps inference_turn p q o h =
      (inference-Keeps fl st _ _ p q refl refl o h, inference_work _ p q refl o h)
  turn-Keeps post_turn p q o h = (post-Keeps fl st _ _ p q refl o h, post_work p q o h)

  preprocess_room :
      (w : Stand (ModelInput fl)) (l : List (RawSample fl)) (p q : Pipeline fl)
      → p.raw_queue.items ≡ l
      → IsOpen fl st p
      → preprocess_step fl st w p ≡ some q
      → HasRoom p
      → HasRoom q
  unfolding preprocess_step emplace_impl
  preprocess_room popping [] p q i o h r = cc (stuck_raw fl st p i o.raw_open)
  preprocess_room popping (s ∷ l) p q i o h r =
      let p' : Pipeline fl = record p { raw_queue = record p.raw_queue { items = l } } in
      let (raw, tensor, result, worker, id, sent) = take_sample_rest fl st s p' in
      subst HasRoom (some-injective _ _ (sym (pop_raw fl st s l p i) ∙ h)) (rw (tensor, result) r)
  preprocess_room (pushing x) l p q i o h r = ground arith
  preprocess_room ended l p q i o h r = ground arith

  pub turn-HasRoom :
      (t : Turn) (p q : Pipeline fl) → IsOpen fl st p → turn t p ≡ some q → HasRoom p → HasRoom q
  unfolding inference_step post_step pop emplace_impl
  turn-HasRoom preprocess_turn p q o h r = preprocess_room _ _ p q refl o h r
  turn-HasRoom inference_turn p q o h r = ground arith
  turn-HasRoom post_turn p q o h r = ground arith
