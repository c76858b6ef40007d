-- ===== src/Pipeline/Shutdown/Cases.antt =====
-- What a thread's turn can be (pipeline/pipeline.cpp and pipeline/worker.cpp).
use pipe_ai_rk3588_industria.Prelude.{
  ◌≡◌, refl, ◌⊎◌, inl, inr, Bool, true, false, not, ◌&&◌, Option, none, some, if◌then◌else◌,
}
use mathlib.Core.Option.{some-injective}
use pipe_ai_rk3588_industria.Floats.{Floats}
use pipe_ai_rk3588_industria.Worker.{leave}
use pipe_ai_rk3588_industria.Pipeline.{Stages, Pipeline, preprocess_step, inference_step, post_step}
use pipe_ai_rk3588_industria.Pipeline.Shutdown.{
  Runtime, preprocess_go, inference_go, post_go, on_pipeline, is_out,
}

module _ (fl : Floats) where
  -- A turn needs a thread in its loop; then the thread leaves, if it may, or the worker takes a step.
  abbrev pub GoesOn :
      Bool → Bool → Runtime fl → Option (Pipeline fl) → Runtime fl → Runtime fl → Type 0
  GoesOn looping out left next rt rt' =
      (looping ≡ true)
      × (((out ≡ true) × (left ≡ rt'))
          ⊎ ((out ≡ false)
              × (q : Pipeline fl) × (next ≡ some q)
              × (record rt { pipeline = q } ≡ rt')))

  goes_on :
      (looping out : Bool) (left : Runtime fl) (next : Option (Pipeline fl)) (rt rt' : Runtime fl)
      → (if not looping then none else if out then some left else on_pipeline fl rt next) ≡ some rt'
      → GoesOn looping out left next rt rt'
  goes_on false out left next rt rt' h = absurd (cc)
  goes_on true true left next rt rt' h = (refl, inl (refl, some-injective _ _ h))
  goes_on true false left none rt rt' h = absurd (cc)
  goes_on true false left (some q) rt rt' h = (refl, inr (refl, q, refl, some-injective _ _ h))

  pub post_go-GoesOn :
      (rt rt' : Runtime fl)
      → post_go fl rt ≡ some rt'
      → GoesOn rt.post_thread.looping
          (rt.pipeline.post_ended && not rt.post_thread.running)
          (record rt { post_thread = leave rt.post_thread })
          (post_step fl rt.pipeline.post_ended rt.pipeline)
          rt
          rt'
  unfolding post_go
  post_go-GoesOn rt rt' h = goes_on _ _ _ _ rt rt' h

  module _ (st : Stages fl) where
    pub preprocess_go-GoesOn :
        (rt rt' : Runtime fl)
        → preprocess_go fl st rt ≡ some rt'
        → GoesOn rt.preprocess_thread.looping
            (is_out rt.pipeline.preprocess_worker && not rt.preprocess_thread.running)
            (record rt { preprocess_thread = leave rt.preprocess_thread })
            (preprocess_step fl st rt.pipeline.preprocess_worker rt.pipeline)
            rt
            rt'
    unfolding preprocess_go
    preprocess_go-GoesOn rt rt' h = goes_on _ _ _ _ rt rt' h

    pub inference_go-GoesOn :
        (rt rt' : Runtime fl)
        → inference_go fl st rt ≡ some rt'
        → GoesOn rt.inference_thread.looping
            (is_out rt.pipeline.inference_worker && not rt.inference_thread.running)
            (record rt { inference_thread = leave rt.inference_thread })
            (inference_step fl st rt.pipeline.inference_worker rt.pipeline)
            rt
            rt'
    unfolding inference_go
    inference_go-GoesOn rt rt' h = goes_on _ _ _ _ rt rt' h
