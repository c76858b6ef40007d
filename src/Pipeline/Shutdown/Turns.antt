-- ===== src/Pipeline/Shutdown/Turns.antt =====
-- What is left to do before `stop` returns (pipeline/pipeline.cpp and pipeline/worker.cpp).
use pipe_ai_rk3588_industria.Prelude.{
  ℕ, ◌+◌, ◌*◌, ◌≤◌, ◌≡◌, Bool, true, false, some, arith, if◌then◌else◌, length,
}
use pipe_ai_rk3588_industria.Floats.{Floats}
use pipe_ai_rk3588_industria.Pipeline.Shutdown.{
  Runtime, Actor, preprocessor, inferrer, poster, stopper, stop_step, Phase, serving, raw_shut,
  tensor_shut, queues_shut, preprocess_lowered, preprocess_stopped, inference_lowered,
  inference_stopped, post_lowered, stopped,
}
use pipe_ai_rk3588_industria.Pipeline.Shutdown.Shut.{IsShut, raw_load, tensor_load, result_load}

-- The actor that takes `stop` further: the thread that it waits for, and `stop` itself.
abbrev pub is_awaited : Phase → Actor → Bool
is_awaited ph stopper = true
is_awaited preprocess_lowered preprocessor = true
is_awaited inference_lowered inferrer = true
is_awaited post_lowered poster = true
is_awaited _ _ = false

-- The steps of `stop` that are left.
abbrev pub steps_left : Phase → ℕ
steps_left serving = 9
steps_left raw_shut = 8
steps_left tensor_shut = 7
steps_left queues_shut = 6
steps_left preprocess_lowered = 5
steps_left preprocess_stopped = 4
steps_left inference_lowered = 3
steps_left inference_stopped = 2
steps_left post_lowered = 1
steps_left stopped = 0

-- Of a thread whose flag is up, whose flag is down, and that is joined.
pub data Stage : Type 0 where
  before during after : Stage

abbrev pub preprocess_stage : Phase → Stage
preprocess_stage serving = before
preprocess_stage raw_shut = before
preprocess_stage tensor_shut = before
preprocess_stage queues_shut = before
preprocess_stage preprocess_lowered = during
preprocess_stage preprocess_stopped = after
preprocess_stage inference_lowered = after
preprocess_stage inference_stopped = after
preprocess_stage post_lowered = after
preprocess_stage stopped = after

abbrev pub inference_stage : Phase → Stage
inference_stage serving = before
inference_stage raw_shut = before
inference_stage tensor_shut = before
inference_stage queues_shut = before
inference_stage preprocess_lowered = before
inference_stage preprocess_stopped = before
inference_stage inference_lowered = during
inference_stage inference_stopped = after
inference_stage post_lowered = after
inference_stage stopped = after

abbrev pub post_stage : Phase → Stage
post_stage serving = before
post_stage raw_shut = before
post_stage tensor_shut = before
post_stage queues_shut = before
post_stage preprocess_lowered = before
post_stage preprocess_stopped = before
post_stage inference_lowered = before
post_stage inference_stopped = before
post_stage post_lowered = during
post_stage stopped = after

-- Turns of a thread until it has left, from the length of its queue and its load.
abbrev pub turns_left : Stage → Bool → ℕ → ℕ → ℕ
turns_left before looping items load = 2 * items + 3
turns_left during looping items load = if looping then load + 1 else 0
turns_left after looping items load = 0

module _ (fl : Floats) where
  unfoldable pub remaining : Runtime fl → ℕ
  remaining rt =
      steps_left rt.phase
      + turns_left (preprocess_stage rt.phase) rt.preprocess_thread.looping
          (length rt.pipeline.raw_queue.items) (raw_load fl rt.pipeline)
      + turns_left (inference_stage rt.phase) rt.inference_thread.looping
          (length rt.pipeline.tensor_queue.items) (tensor_load fl rt.pipeline)
      + turns_left (post_stage rt.phase) rt.post_thread.looping
          (length rt.pipeline.result_queue.items) (result_load fl rt.pipeline)

  -- The queues are closed, and the flag of the thread that `stop` waits for is down.
  pub record IsClosing (rt : Runtime fl) : Type 0 where
    pub shut : IsShut fl rt.pipeline
    pub preprocess_down : preprocess_stage rt.phase ≡ during → rt.preprocess_thread.running ≡ false
    pub inference_down : inference_stage rt.phase ≡ during → rt.inference_thread.running ≡ false
    pub post_down : post_stage rt.phase ≡ during → rt.post_thread.running ≡ false
    pub closed_phase : steps_left rt.phase ≤ 6

  pub stop_step-remaining :
      (ph : Phase) (rt rt' : Runtime fl)
      → rt.phase ≡ ph
      → IsClosing rt
      → stop_step fl ph rt ≡ some rt'
      → IsClosing rt' × (remaining rt' + 1 ≤ remaining rt)
  unfolding stop_step remaining
  stop_step-remaining serving rt rt' e c h = ground arith
  stop_step-remaining raw_shut rt rt' e c h = ground arith
  stop_step-remaining tensor_shut rt rt' e c h = ground arith
  stop_step-remaining queues_shut rt rt' e c h = ground arith
  stop_step-remaining preprocess_lowered rt rt' e c h = ground arith
  stop_step-remaining preprocess_stopped rt rt' e c h = ground arith
  stop_step-remaining inference_lowered rt rt' e c h = ground arith
  stop_step-remaining inference_stopped rt rt' e c h = ground arith
  stop_step-remaining post_lowered rt rt' e c h = ground arith
  stop_step-remaining stopped rt rt' e c h = ground arith
