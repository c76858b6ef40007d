-- ===== src/Pipeline/Shutdown/Tests.antt =====
-- A pipeline that is stopped with a sample in its queue (pipeline/pipeline.cpp).
use pipe_ai_rk3588_industria.Prelude.{
  ◌≤◌, ◌≡◌, refl, ◌≢◌, ◌⊎◌, true, false, Option, none, some, List, [], ◌∷◌, arith, replicate,
}
use pipe_ai_rk3588_industria.Prelude.Int.{pos}
use pipe_ai_rk3588_industria.Floats.Fixed.{fixed}
use pipe_ai_rk3588_industria.Types.{RawSample}
use pipe_ai_rk3588_industria.Queue.{pop, close, emplace_impl}
use pipe_ai_rk3588_industria.Engine.{new_engine}
use pipe_ai_rk3588_industria.Pipeline.{
  Stages, started, submit, preprocess_step, inference_step, post_step, take_sample, stop_raw,
  stop_tensor, stop_result,
}
use pipe_ai_rk3588_industria.Pipeline.Steps.{expected}
use pipe_ai_rk3588_industria.Pipeline.Through.{IsPrefix}
use pipe_ai_rk3588_industria.Pipeline.Shutdown.{
  Runtime, Actor, preprocessor, inferrer, poster, stopper, act, Runs, begins, submits, acts,
  launched, preprocess_go, inference_go, post_go, stop_step, queues_shut, stopped,
}
use pipe_ai_rk3588_industria.Pipeline.Shutdown.Turns.{is_awaited, remaining}
use pipe_ai_rk3588_industria.Pipeline.Shutdown.Prefix.{Runs-IsPrefix}
use pipe_ai_rk3588_industria.Pipeline.Shutdown.Returns.{
  Goes, rests, turns, Runs-stop_returns, Runs-stopped,
}

abbrev stages : Stages fixed
stages = record {
  options = record { sensor_min = some (pos 150) };
  sdk = none;
  engine = new_engine;
}

abbrev sample : RawSample fixed
sample = record { timestamp_ns = 7; radar = replicate 8 (some (pos 200)); imu = some (pos 1) }

pub record Run (ss : List (RawSample fixed)) : Type 0 where
  pub last : Runtime fixed
  pub reach : Runs fixed stages 2 ss last

abbrev went :
    {ss : List (RawSample fixed)} (a : Actor) (r : Run ss) (o : Option (Runtime fixed))
    → act fixed stages a r.last ≡ o
    → Run ss
went a r none e = r
went a r (some rt) e = record { last = rt; reach = acts a r.reach e }

abbrev go_all : {ss : List (RawSample fixed)} → List Actor → Run ss → Run ss
go_all [] r = r
go_all (a ∷ actors) r = go_all actors (went a r (act fixed stages a r.last) refl)

unfoldable fed : Run (sample ∷ [])
unfolding launched submit emplace_impl started
fed = record { last = _; reach = submits sample true (begins refl) refl refl }

-- Three closings; the first thread begins its loop and drains its queue, and each thread leaves once its
-- flag is down.
abbrev closing : Run (sample ∷ [])
closing = go_all (stopper ∷ stopper ∷ stopper ∷ []) fed

abbrev whole : List Actor
whole =
    preprocessor ∷ preprocessor ∷ preprocessor ∷ stopper ∷ preprocessor ∷ stopper ∷ stopper
    ∷ inferrer ∷ stopper ∷ stopper ∷ poster ∷ stopper ∷ []

abbrev returned : Run (sample ∷ [])
returned = go_all whole closing

Runs-IsPrefix_example :
    IsPrefix returned.last.pipeline.delivered (expected fixed stages (sample ∷ []))
Runs-IsPrefix_example = Runs-IsPrefix fixed stages returned.reach

closed_all : closing.last.phase ≡ queues_shut
unfolding fed stop_step
closed_all = refl

one_turn : Goes fixed stages closing.last 1 (go_all (stopper ∷ []) closing).last
unfolding fed stop_step
one_turn = turns stopper rests refl (omega arith)

Runs-stop_returns_example :
    (1 ≤ remaining fixed closing.last)
    × ((go_all (stopper ∷ []) closing).last.phase ≢ stopped
        → (a : Actor) × (is_awaited (go_all (stopper ∷ []) closing).last.phase a ≡ true)
          × (act fixed stages a (go_all (stopper ∷ []) closing).last ≢ none))
unfolding fed stop_step
Runs-stop_returns_example = Runs-stop_returns fixed stages closing.reach (omega arith) one_turn

-- The flags go down before the threads are first scheduled, and the sample stays in its queue.
abbrev idle : List Actor
idle =
    stopper ∷ preprocessor ∷ stopper ∷ stopper ∷ inferrer ∷ stopper ∷ stopper ∷ poster ∷ stopper
    ∷ []

abbrev skipped : Run (sample ∷ [])
skipped = go_all idle closing

all_done : (returned.last.phase ≡ stopped) × (returned.last.pipeline.raw_queue.items ≡ [])
unfolding fed stop_step preprocess_go inference_go post_go preprocess_step inference_step post_step
    pop take_sample stop_raw stop_tensor stop_result close
all_done = (refl, refl)

sample_left : (skipped.last.phase ≡ stopped) × (skipped.last.pipeline.raw_queue.items ≡ sample ∷ [])
unfolding fed stop_step preprocess_go inference_go post_go preprocess_step inference_step post_step
    pop take_sample stop_raw stop_tensor stop_result close
sample_left = (refl, refl)

Runs-stopped_example :
    let rt = skipped.last in
    ((rt.pipeline.raw_queue.closed ≡ true)
      × ((rt.pipeline.raw_queue.items ≡ [])
          ⊎ ((rt.pipeline.raw_queue.items ≡ sample ∷ []) × (rt.pipeline.window_buffer ≡ []))))
    × ((rt.pipeline.tensor_queue.closed ≡ true)
        × ((rt.pipeline.tensor_queue.items ≡ []) ⊎ (rt.pipeline.window_id ≡ 0)))
    × ((rt.pipeline.result_queue.closed ≡ true)
        × ((rt.pipeline.result_queue.items ≡ []) ⊎ (rt.pipeline.delivered ≡ [])))
    × (rt.preprocess_thread.looping ≡ false)
    × (rt.inference_thread.looping ≡ false)
    × (rt.post_thread.looping ≡ false)
    × ((a : Actor) → act fixed stages a rt ≡ none)
Runs-stopped_example = Runs-stopped fixed stages skipped.reach sample_left.0
