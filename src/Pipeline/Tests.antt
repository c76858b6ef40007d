-- ===== src/Pipeline/Tests.antt =====
-- A short run of the pipeline, and the theorems about every run at it.
use pipe_ai_rk3588_industria.Pipeline.Windows.{Reach-counts}
use pipe_ai_rk3588_industria.Pipeline.Windows.{IsNumbered}
use pipe_ai_rk3588_industria.Pipeline.Progress.{preprocess_turn, AllWait, work}
use pipe_ai_rk3588_industria.Pipeline.Drain.{rests, Reach-drains, goes, Works}
use pipe_ai_rk3588_industria.Prelude.{
  arith, ◌/◌, length, false, ◌≤◌, ◌≡◌, refl, none, some, List, [], ◌∷◌, ◌++◌, replicate,
}
use pipe_ai_rk3588_industria.Prelude.Int.{pos}
use pipe_ai_rk3588_industria.Floats.Fixed.{fixed, fixed-IsIeee}
use pipe_ai_rk3588_industria.Types.{target_length, RawSample, InferenceResult}
use pipe_ai_rk3588_industria.Queue.{pop, emplace_impl}
use pipe_ai_rk3588_industria.Engine.{new_engine}
use pipe_ai_rk3588_industria.Pipeline.{
  Stages, Pipeline, started, submit, preprocess_step, take_sample,
}
use pipe_ai_rk3588_industria.Pipeline.Steps.{expected}
use pipe_ai_rk3588_industria.Pipeline.Order.{
  Reach, begins, submits, preprocesses, Reach-delivers, IsIdle,
}
use pipe_ai_rk3588_industria.Pipeline.Shapes.{Reach-IsShaped}
use pipe_ai_rk3588_industria.Pipeline.Shapes.Sizes.{IsShaped}

abbrev stages : Stages fixed
stages = record {
  options = record { sensor_min = some (pos 150) };
  sdk = none;
  engine = new_engine;
}

abbrev sample : RawSample fixed
sample = record { timestamp_ns = 7; radar = replicate 8 (some (pos 200)); imu = some (pos 1) }

-- One sample was submitted and taken into the window.
abbrev one_taken : Pipeline fixed
one_taken = record (unfold started in started fixed 2) { window_buffer = sample ∷ [] }

history : Reach fixed stages 2 (sample ∷ []) one_taken
unfolding submit emplace_impl preprocess_step pop take_sample started
history = preprocesses (submits sample (begins refl) refl refl) refl

Reach-delivers_example :
    ((rest : List (InferenceResult fixed)) × ([] ++ rest ≡ expected fixed stages (sample ∷ [])))
    × (IsIdle fixed stages 2 one_taken → [] ≡ expected fixed stages (sample ∷ []))
unfolding started
Reach-delivers_example = Reach-delivers fixed stages 2 history

-- The sample is submitted, and no worker has taken it.
abbrev submitted_one : Pipeline fixed
submitted_one = record (unfold started in started fixed 2) {
  raw_queue = record { capacity = 2; items = sample ∷ []; closed = false };
}

submitted_history : Reach fixed stages 2 (sample ∷ []) submitted_one
unfolding submit emplace_impl started
submitted_history = submits sample (begins refl) refl refl

one_turn : Works fixed stages submitted_one 1 one_taken
unfolding preprocess_step pop take_sample started
one_turn = goes preprocess_turn rests refl

Reach-drains_example :
    (1 ≤ work fixed stages submitted_one)
    × (AllWait fixed stages one_taken → [] ≡ expected fixed stages (sample ∷ []))
unfolding started
Reach-drains_example = Reach-drains fixed stages 2 (omega arith) submitted_history one_turn

Reach-counts_example :
    (length one_taken.delivered ≤ 1 / target_length)
    × (AllWait fixed stages one_taken → length one_taken.delivered ≡ 1 / target_length)
    × IsNumbered fixed stages 0 one_taken.delivered
Reach-counts_example = Reach-counts fixed stages fixed-IsIeee refl 2 (omega arith) history

Reach-IsShaped_example : IsShaped fixed stages one_taken
Reach-IsShaped_example = Reach-IsShaped fixed stages 2 history
