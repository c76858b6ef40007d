-- ===== src/Pipeline/Shutdown.antt =====
-- The pipeline with its threads, up to the end of `Pipeline::stop` (pipeline/pipeline.cpp and
-- pipeline/worker.cpp).
mod Cases
mod Shut
mod Turns
mod Outcome
mod Threads
pub mod Returns
pub mod Tests
pub mod Prefix
pub mod Ends
use pipe_ai_rk3588_industria.Prelude.{
  ℕ, ◌+◌, ◌≡◌, Bool, true, false, not, ◌&&◌, Option, none, some, List, [], ◌∷◌, ◌++◌, if◌then◌else◌,
}
use pipe_ai_rk3588_industria.Floats.{Floats}
use pipe_ai_rk3588_industria.Types.{RawSample}
use pipe_ai_rk3588_industria.Worker.{Worker, lower_flag, leave, join}
use pipe_ai_rk3588_industria.Pipeline.{
  Stages, Stand, popping, pushing, ended, Pipeline, preprocess_step, inference_step, post_step,
  submit, stop_raw, stop_tensor, stop_result, started,
}

-- How far the thread that calls `stop` is; before it calls it, `serving`.
pub data Phase : Type 0 where
  serving raw_shut tensor_shut queues_shut : Phase
  preprocess_lowered preprocess_stopped : Phase
  inference_lowered inference_stopped : Phase
  post_lowered stopped : Phase

abbrev pub is_out {ℓ} : {A : Type ℓ} → Stand A → Bool
is_out popping = false
is_out (pushing x) = false
is_out ended = true

module _ (fl : Floats) where
  pub record Runtime : Type 0 where
    pub pipeline : Pipeline fl
    pub preprocess_thread : Worker
    pub inference_thread : Worker
    pub post_thread : Worker
    pub phase : Phase

  abbrev pub on_pipeline : Runtime → Option (Pipeline fl) → Option Runtime
  on_pipeline rt none = none
  on_pipeline rt (some p) = some (record rt { pipeline = p })

  -- A thread at the head of its `while (running_)` leaves if the flag is down, and else goes on.
  unfoldable pub preprocess_go : Stages fl → Runtime → Option Runtime
  preprocess_go st rt =
      if not rt.preprocess_thread.looping
      then none
      else if is_out rt.pipeline.preprocess_worker && not rt.preprocess_thread.running
      then some (record rt { preprocess_thread = leave rt.preprocess_thread })
      else on_pipeline rt (preprocess_step fl st rt.pipeline.preprocess_worker rt.pipeline)

  unfoldable pub inference_go : Stages fl → Runtime → Option Runtime
  inference_go st rt =
      if not rt.inference_thread.looping
      then none
      else if is_out rt.pipeline.inference_worker && not rt.inference_thread.running
      then some (record rt { inference_thread = leave rt.inference_thread })
      else on_pipeline rt (inference_step fl st rt.pipeline.inference_worker rt.pipeline)

  unfoldable pub post_go : Runtime → Option Runtime
  post_go rt =
      if not rt.post_thread.looping
      then none
      else if rt.pipeline.post_ended && not rt.post_thread.running
      then some (record rt { post_thread = leave rt.post_thread })
      else on_pipeline rt (post_step fl rt.pipeline.post_ended rt.pipeline)

  abbrev pub preprocess_joined : Runtime → Option Worker → Option Runtime
  preprocess_joined rt none = none
  preprocess_joined rt (some w) =
      some (record rt { preprocess_thread = w; phase = preprocess_stopped })

  abbrev pub inference_joined : Runtime → Option Worker → Option Runtime
  inference_joined rt none = none
  inference_joined rt (some w) =
      some (record rt { inference_thread = w; phase = inference_stopped })

  abbrev pub post_joined : Runtime → Option Worker → Option Runtime
  post_joined rt none = none
  post_joined rt (some w) = some (record rt { post_thread = w; phase = stopped })

  -- The next step of `stop`; `none` while it waits for a thread, and when it has returned.
  unfoldable pub stop_step : Phase → Runtime → Option Runtime
  unfolding stop_raw stop_tensor stop_result
  stop_step serving rt = some (record rt { pipeline = stop_raw fl rt.pipeline; phase = raw_shut })
  stop_step raw_shut rt =
      some (record rt { pipeline = stop_tensor fl rt.pipeline; phase = tensor_shut })
  stop_step tensor_shut rt =
      some (record rt { pipeline = stop_result fl rt.pipeline; phase = queues_shut })
  stop_step queues_shut rt =
      let (was, w) = lower_flag rt.preprocess_thread in
      some (record rt {
        preprocess_thread = w;
        phase = if was then preprocess_lowered else preprocess_stopped;
      })
  stop_step preprocess_lowered rt = preprocess_joined rt (join rt.preprocess_thread)
  stop_step preprocess_stopped rt =
      let (was, w) = lower_flag rt.inference_thread in
      some (record rt {
        inference_thread = w;
        phase = if was then inference_lowered else inference_stopped;
      })
  stop_step inference_lowered rt = inference_joined rt (join rt.inference_thread)
  stop_step inference_stopped rt =
      let (was, w) = lower_flag rt.post_thread in
      some (record rt { post_thread = w; phase = if was then post_lowered else stopped })
  stop_step post_lowered rt = post_joined rt (join rt.post_thread)
  stop_step stopped rt = none

  abbrev pub on_submit : Runtime → Option (Bool × Pipeline fl) → Option (Bool × Runtime)
  on_submit rt none = none
  on_submit rt (some (done, p)) = some (done, record rt { pipeline = p })

  -- Behind `start`: three threads at the head of their `while (running_)`, which none has tested yet.
  abbrev pub at_work : Worker
  at_work = record { running = true; joinable = true; looping = true }

  unfoldable pub launched : ℕ → Runtime
  launched capacity = record {
    pipeline = record (started fl capacity) {
      preprocess_worker = ended;
      inference_worker = ended;
      post_ended = true;
    };
    preprocess_thread = at_work;
    inference_thread = at_work;
    post_thread = at_work;
    phase = serving;
  }

-- Who goes on: one of the three threads, or the one that calls `stop`.
pub data Actor : Type 0 where
  preprocessor inferrer poster stopper : Actor

module _ (fl : Floats) (st : Stages fl) where
  abbrev pub act : Actor → Runtime fl → Option (Runtime fl)
  act preprocessor rt = preprocess_go fl st rt
  act inferrer rt = inference_go fl st rt
  act poster rt = post_go fl rt
  act stopper rt = stop_step fl rt.phase rt

  -- The states that a launched pipeline can reach, stopped or not, with the samples that it accepted.
  pub data Runs (capacity : ℕ) : List (RawSample fl) → Runtime fl → Type 0 where
    begins : {rt : Runtime fl} → rt ≡ launched fl capacity → Runs capacity [] rt
    submits :
        {ss ss' : List (RawSample fl)} {rt rt' : Runtime fl} (s : RawSample fl) (done : Bool)
        → Runs capacity ss rt
        → on_submit fl rt (submit fl s rt.pipeline) ≡ some (done, rt')
        → ss' ≡ (if done then ss ++ (s ∷ []) else ss)
        → Runs capacity ss' rt'
    acts :
        {ss : List (RawSample fl)} {rt rt' : Runtime fl} (a : Actor)
        → Runs capacity ss rt
        → act a rt ≡ some rt'
        → Runs capacity ss rt'
