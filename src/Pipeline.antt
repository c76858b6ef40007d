-- ===== src/Pipeline.antt =====
-- The three-stage pipeline: pipeline/pipeline.cpp, with the loops of pipeline/worker.cpp.
-- A thread's program is cut where it touches a queue: between two such places it works on data of
-- its own, so every schedule of the threads is a sequence of these steps.
pub mod Steps
pub mod Order
pub mod Progress
pub mod Drain
pub mod Windows
pub mod Through
pub mod Passage
pub mod Shutdown
pub mod Shapes
pub mod Unloaded
pub mod Tests
use pipe_ai_rk3588_industria.Prelude.{
  ℕ, ◌+◌, Bool, true, false, Option, none, some, List, [], ◌∷◌, ◌++◌, leb, if◌then◌else◌, length,
}
use pipe_ai_rk3588_industria.Floats.{Floats}
use pipe_ai_rk3588_industria.Status.{Status, is_ok}
use pipe_ai_rk3588_industria.Types.{
  RawSample, ModelInput, InferenceResult, target_length, class_count, cleared_input, blank_result,
}
use pipe_ai_rk3588_industria.Queue.{Queue, Outcome, waits, returns, push, pop, close, emplace_impl}
use pipe_ai_rk3588_industria.Preprocessor.{PreprocessOptions}
use pipe_ai_rk3588_industria.Preprocessor
use pipe_ai_rk3588_industria.Engine.{Engine, Sdk, infer}
use pipe_ai_rk3588_industria.Classifier.{classify}

-- What the stages run: the preprocessor's options, the SDK, and the engine's state.
pub record Stages (fl : Floats) : Type 0 where
  pub options : PreprocessOptions fl
  pub sdk : Option (Sdk fl)
  pub engine : Engine

-- Where a worker stands: before its `pop`, before the `push` of a value, or behind its loop, at the head
-- of the thread's `while (running_)`.
pub data Stand {ℓ} (A : Type ℓ) : Type ℓ where
  popping : Stand A
  pushing : A → Stand A
  ended : Stand A

module _ (fl : Floats) where
  pub record Pipeline : Type 0 where
    pub raw_queue : Queue (RawSample fl)
    pub tensor_queue : Queue (ModelInput fl)
    pub result_queue : Queue (InferenceResult fl)
    pub window_buffer : List (RawSample fl)
    pub window_id : ℕ
    pub preprocess_worker : Stand (ModelInput fl)
    pub inference_worker : Stand (InferenceResult fl)
    pub post_ended : Bool
    -- The results that the callback was called with.
    pub delivered : List (InferenceResult fl)

  -- `preprocessor_.run(local_window, input, nullptr)`, on a fresh `ModelInput`.
  abbrev kept : Status × ModelInput fl × Preprocessor.PreprocessReport → Option (ModelInput fl)
  kept (status, input, report) = if is_ok status then some input else none

  unfoldable pub preprocess : Stages fl → List (RawSample fl) → Option (ModelInput fl)
  preprocess st window = kept (Preprocessor.run fl st.options window (cleared_input fl))

  -- `for (i = 0; i < kClassCount && i < output.size(); ++i) result.logits[i] = output[i];`
  unfoldable pub copy_logits : List fl.F → List fl.F → List fl.F
  copy_logits [] output = []
  copy_logits (l ∷ logits) [] = l ∷ logits
  copy_logits (l ∷ logits) (o ∷ output) = o ∷ copy_logits logits output

  abbrev numbered : ℕ → InferenceResult fl
  numbered id = record (blank_result fl) { window_id = id }

  abbrev pub with_output : InferenceResult fl → Status × List fl.F → InferenceResult fl
  with_output r (status, output) =
      if is_ok status then record r { logits = copy_logits r.logits output } else r

  -- One round of `inference_loop` between its pop and its push.
  unfoldable pub infer_window : Stages fl → ℕ → ModelInput fl → InferenceResult fl
  infer_window st id input =
      if st.engine.initialized
      then with_output (numbered id) (infer fl st.sdk st.engine input [])
      else numbered id

  -- What `preprocess_loop` does with a popped sample.
  unfoldable pub take_sample : Stages fl → RawSample fl → Pipeline → Pipeline
  take_sample st s p =
      let window = p.window_buffer ++ (s ∷ []) in
      if leb target_length (length window)
      then record p {
        window_buffer = [];
        preprocess_worker = elim (preprocess st window) [ none ↦ popping | some x ↦ pushing x ];
      }
      else record p { window_buffer = window; preprocess_worker = popping }

  abbrev pub popped_raw :
      Stages fl
      → Pipeline
      → Outcome (Option (RawSample fl) × Queue (RawSample fl))
      → Option Pipeline
  popped_raw st p waits = none
  popped_raw st p (returns (none, q)) = some (record p { raw_queue = q; preprocess_worker = ended })
  popped_raw st p (returns (some s, q)) = some (take_sample st s (record p { raw_queue = q }))

  abbrev pub pushed_tensor : Pipeline → Outcome (Bool × Queue (ModelInput fl)) → Option Pipeline
  pushed_tensor p waits = none
  pushed_tensor p (returns (done, q)) =
      some (record p { tensor_queue = q; preprocess_worker = popping })

  -- The next step of the first worker; `none` while it waits on a queue. A worker whose loop has
  -- ended is in `while (running_)`, and begins again.
  unfoldable pub preprocess_step : Stages fl → Stand (ModelInput fl) → Pipeline → Option Pipeline
  preprocess_step st popping p = popped_raw st p (pop p.raw_queue)
  preprocess_step st (pushing x) p = pushed_tensor p (push x p.tensor_queue)
  preprocess_step st ended p = some (record p { preprocess_worker = popping })

  abbrev pub popped_tensor :
      Stages fl
      → Pipeline
      → Outcome (Option (ModelInput fl) × Queue (ModelInput fl))
      → Option Pipeline
  popped_tensor st p waits = none
  popped_tensor st p (returns (none, q)) =
      some (record p { tensor_queue = q; inference_worker = ended })
  popped_tensor st p (returns (some x, q)) = some (record p {
    tensor_queue = q;
    window_id = p.window_id + 1;
    inference_worker = pushing (infer_window st (p.window_id + 1) x);
  })

  abbrev pub pushed_result :
      Pipeline → Outcome (Bool × Queue (InferenceResult fl)) → Option Pipeline
  pushed_result p waits = none
  pushed_result p (returns (done, q)) =
      some (record p { result_queue = q; inference_worker = popping })

  unfoldable pub inference_step :
      Stages fl → Stand (InferenceResult fl) → Pipeline → Option Pipeline
  inference_step st popping p = popped_tensor st p (pop p.tensor_queue)
  inference_step st (pushing r) p = pushed_result p (push r p.result_queue)
  inference_step st ended p = some (record p { inference_worker = popping })

  abbrev pub popped_result :
      Pipeline
      → Outcome (Option (InferenceResult fl) × Queue (InferenceResult fl))
      → Option Pipeline
  popped_result p waits = none
  popped_result p (returns (none, q)) = some (record p { result_queue = q; post_ended = true })
  popped_result p (returns (some r, q)) = some (record p {
    result_queue = q;
    post_ended = false;
    delivered = p.delivered ++ (classify fl r ∷ []);
  })

  unfoldable pub post_step : Bool → Pipeline → Option Pipeline
  post_step true p = some (record p { post_ended = false })
  post_step false p = popped_result p (pop p.result_queue)

  abbrev pub submitted : Pipeline → Outcome (Bool × Queue (RawSample fl)) → Option (Bool × Pipeline)
  submitted p waits = none
  submitted p (returns (done, q)) = some (done, record p { raw_queue = q })

  -- `submit`, by a thread that feeds samples; `none` while it waits.
  unfoldable pub submit : RawSample fl → Pipeline → Option (Bool × Pipeline)
  submit s p = submitted p (push s p.raw_queue)

  -- The part of `stop` before it joins the workers; the threads may run between the three calls.
  unfoldable pub stop_raw : Pipeline → Pipeline
  stop_raw p = record p { raw_queue = close p.raw_queue }

  unfoldable pub stop_tensor : Pipeline → Pipeline
  stop_tensor p = record p { tensor_queue = close p.tensor_queue }

  unfoldable pub stop_result : Pipeline → Pipeline
  stop_result p = record p { result_queue = close p.result_queue }

  abbrev fresh_queue {ℓ} : (A : Type ℓ) → ℕ → Queue A
  fresh_queue A capacity = record { capacity = capacity; items = []; closed = false }

  -- A started pipeline, for a capacity that the queues accept, of which each thread has passed its first
  -- test of `running_`, which holds until a `stop`.
  unfoldable pub started : ℕ → Pipeline
  started capacity = record {
    raw_queue = fresh_queue (RawSample fl) capacity;
    tensor_queue = fresh_queue (ModelInput fl) capacity;
    result_queue = fresh_queue (InferenceResult fl) capacity;
    window_buffer = [];
    window_id = 0;
    preprocess_worker = popping;
    inference_worker = popping;
    post_ended = false;
    delivered = [];
  }
