-- ===== src/Pipeline/Shutdown/Ends.antt =====
-- `stop` returns (pipeline/pipeline.cpp and pipeline/worker.cpp).
use pipe_ai_rk3588_industria.Prelude.{
  ℕ, ◌+◌, ◌≤◌, ◌≡◌, refl, sym, ap, ◌∙◌, ◌≢◌, inl, inr, Bool, true, false, not, ◌&&◌, none, some,
  arith, if◌then◌else◌, Bool-cases, length,
}
use mathlib.Core.Path.{subst}
use pipe_ai_rk3588_industria.Floats.{Floats}
use pipe_ai_rk3588_industria.Queue.{pop, emplace_impl}
use pipe_ai_rk3588_industria.Worker.{leave}
use pipe_ai_rk3588_industria.Pipeline.{Stages, Pipeline, preprocess_step, inference_step, post_step}
use pipe_ai_rk3588_industria.Pipeline.Shutdown.{
  Runtime, Actor, preprocessor, inferrer, poster, stopper, act, stop_step, Phase, serving, raw_shut,
  tensor_shut, queues_shut, preprocess_lowered, preprocess_stopped, inference_lowered,
  inference_stopped, post_lowered, stopped, is_out, preprocess_go, inference_go, post_go,
}
use pipe_ai_rk3588_industria.Pipeline.Shutdown.Cases.{
  preprocess_go-GoesOn, inference_go-GoesOn, post_go-GoesOn,
}
use pipe_ai_rk3588_industria.Pipeline.Shutdown.Shut.{
  cost, IsShut, IsFirst, IsSecond, IsThird, preprocess_step-IsFirst, inference_step-IsSecond,
  post_step-IsThird,
}
use pipe_ai_rk3588_industria.Pipeline.Shutdown.Turns.{
  is_awaited, steps_left, preprocess_stage, inference_stage, post_stage, remaining, IsClosing,
  stop_step-remaining,
}

module _ (fl : Floats) where
  -- What a turn of an actor keeps, and what it does of what is left.
  abbrev pub Takes : Actor → Runtime fl → Runtime fl → Type 0
  Takes a rt rt' =
      IsClosing fl rt'
      × (remaining fl rt' + (if is_awaited rt.phase a then 1 else 0) ≤ remaining fl rt)

  -- A turn of a thread that leaves the three phases and flags alone.
  same_phase :
      (rt rt' : Runtime fl)
      → IsClosing fl rt
      → rt'.phase ≡ rt.phase
      → rt'.preprocess_thread.running ≡ rt.preprocess_thread.running
      → rt'.inference_thread.running ≡ rt.inference_thread.running
      → rt'.post_thread.running ≡ rt.post_thread.running
      → IsShut fl rt'.pipeline
      → IsClosing fl rt'
  same_phase rt rt' c e a b d s = record {
    shut = s;
    preprocess_down = λ h. a ∙ c.preprocess_down (ap preprocess_stage (sym e) ∙ h);
    inference_down = λ h. b ∙ c.inference_down (ap inference_stage (sym e) ∙ h);
    post_down = λ h. d ∙ c.post_down (ap post_stage (sym e) ∙ h);
    closed_phase = omega (arith, ap steps_left e, c.closed_phase);
  }

  preprocess_left :
      (rt : Runtime fl)
      → IsClosing fl rt
      → rt.preprocess_thread.looping ≡ true
      → Takes preprocessor rt (record rt { preprocess_thread = leave rt.preprocess_thread })
  unfolding remaining
  preprocess_left rt c there = (same_phase rt _ c refl refl refl refl c.shut, ground arith)

  preprocess_stepped :
      (rt : Runtime fl) (q : Pipeline fl)
      → IsClosing fl rt
      → rt.preprocess_thread.looping ≡ true
      → (is_out rt.pipeline.preprocess_worker && not rt.preprocess_thread.running) ≡ false
      → IsFirst fl rt.pipeline q
      → Takes preprocessor rt (record rt { pipeline = q })
  unfolding remaining
  preprocess_stepped rt q c there on f = (
    same_phase rt _ c refl refl refl refl f.shut,
    ground (
      arith,
      f.shorter,
      f.lighter,
      c.preprocess_down,
      ap (λ z. length z.items) f.tensor_same,
      ap (λ z. length z.items) f.result_same,
      ap cost f.inference_same,
      ap {B = ℕ} (λ (b : Bool). if b then 0 else 1) f.post_same,
    ),
  )

  inference_left :
      (rt : Runtime fl)
      → IsClosing fl rt
      → rt.inference_thread.looping ≡ true
      → Takes inferrer rt (record rt { inference_thread = leave rt.inference_thread })
  unfolding remaining
  inference_left rt c there = (same_phase rt _ c refl refl refl refl c.shut, ground arith)

  inference_stepped :
      (rt : Runtime fl) (q : Pipeline fl)
      → IsClosing fl rt
      → rt.inference_thread.looping ≡ true
      → (is_out rt.pipeline.inference_worker && not rt.inference_thread.running) ≡ false
      → IsSecond fl rt.pipeline q
      → Takes inferrer rt (record rt { pipeline = q })
  unfolding remaining
  inference_stepped rt q c there on f = (
    same_phase rt _ c refl refl refl refl f.shut,
    ground (
      arith,
      f.shorter,
      f.lighter,
      c.inference_down,
      ap (λ z. length z.items) f.raw_same,
      ap (λ z. length z.items) f.result_same,
      ap cost f.preprocess_same,
      ap {B = ℕ} (λ (b : Bool). if b then 0 else 1) f.post_same,
    ),
  )

  post_left :
      (rt : Runtime fl)
      → IsClosing fl rt
      → rt.post_thread.looping ≡ true
      → Takes poster rt (record rt { post_thread = leave rt.post_thread })
  unfolding remaining
  post_left rt c there = (same_phase rt _ c refl refl refl refl c.shut, ground arith)

  post_stepped :
      (rt : Runtime fl) (q : Pipeline fl)
      → IsClosing fl rt
      → rt.post_thread.looping ≡ true
      → (rt.pipeline.post_ended && not rt.post_thread.running) ≡ false
      → IsThird fl rt.pipeline q
      → Takes poster rt (record rt { pipeline = q })
  unfolding remaining
  post_stepped rt q c there on f = (
    same_phase rt _ c refl refl refl refl f.shut,
    ground (
      arith,
      f.shorter,
      f.lighter,
      c.post_down,
      ap (λ z. length z.items) f.raw_same,
      ap (λ z. length z.items) f.tensor_same,
      ap cost f.preprocess_same,
      ap cost f.inference_same,
    ),
  )

  module _ (st : Stages fl) where
    pub act-Takes :
        (a : Actor) (rt rt' : Runtime fl)
        → IsClosing fl rt
        → act fl st a rt ≡ some rt'
        → Takes a rt rt'
    act-Takes preprocessor rt rt' c h =
        let (there, way) = preprocess_go-GoesOn fl st rt rt' h in
        elim way [
          | inl (out, e) ↦ subst (Takes preprocessor rt) e (preprocess_left rt c there)
          | inr (on, q, made, e) ↦ subst (Takes preprocessor rt) e (
              preprocess_stepped rt q c there on
                (preprocess_step-IsFirst fl st _ _ rt.pipeline q refl refl c.shut made))
        ]
    act-Takes inferrer rt rt' c h =
        let (there, way) = inference_go-GoesOn fl st rt rt' h in
        elim way [
          | inl (out, e) ↦ subst (Takes inferrer rt) e (inference_left rt c there)
          | inr (on, q, made, e) ↦ subst (Takes inferrer rt) e (
              inference_stepped rt q c there on
                (inference_step-IsSecond fl st _ rt.pipeline q refl c.shut made))
        ]
    act-Takes poster rt rt' c h =
        let (there, way) = post_go-GoesOn fl rt rt' h in
        elim way [
          | inl (out, e) ↦ subst (Takes poster rt) e (post_left rt c there)
          | inr (on, q, made, e) ↦
              subst (Takes poster rt) e (
                post_stepped rt q c there on
                  (post_step-IsThird fl _ rt.pipeline q refl c.shut made))
        ]
    act-Takes stopper rt rt' c h = stop_step-remaining fl rt.phase rt rt' refl c h

    -- A thread in its loop can always go on when the queues are closed.
    preprocess_enabled :
        (rt : Runtime fl)
        → IsShut fl rt.pipeline
        → rt.preprocess_thread.looping ≡ true
        → preprocess_go fl st rt ≢ none
    unfolding preprocess_go preprocess_step pop emplace_impl
    preprocess_enabled rt s there h = ground arith

    inference_enabled :
        (rt : Runtime fl)
        → IsShut fl rt.pipeline
        → rt.inference_thread.looping ≡ true
        → inference_go fl st rt ≢ none
    unfolding inference_go inference_step pop emplace_impl
    inference_enabled rt s there h = ground arith

    post_enabled :
        (rt : Runtime fl)
        → IsShut fl rt.pipeline
        → rt.post_thread.looping ≡ true
        → post_go fl rt ≢ none
    unfolding post_go post_step pop
    post_enabled rt s there h = ground arith

    -- While `stop` has not returned, it goes on itself or waits for a thread that can go on.
    pub awaited_enabled :
        (ph : Phase) (rt : Runtime fl)
        → rt.phase ≡ ph
        → IsShut fl rt.pipeline
        → ph ≢ stopped
        → (a : Actor) × (is_awaited ph a ≡ true) × (act fl st a rt ≢ none)
    unfolding stop_step
    awaited_enabled serving rt e s h = (stopper, refl, ground arith)
    awaited_enabled raw_shut rt e s h = (stopper, refl, ground arith)
    awaited_enabled tensor_shut rt e s h = (stopper, refl, ground arith)
    awaited_enabled queues_shut rt e s h = (stopper, refl, ground arith)
    awaited_enabled preprocess_lowered rt e s h = elim (Bool-cases rt.preprocess_thread.looping) [
      | inl there ↦ (preprocessor, refl, preprocess_enabled rt s there)
      | inr gone ↦ (stopper, refl, ground arith)
    ]
    awaited_enabled preprocess_stopped rt e s h = (stopper, refl, ground arith)
    awaited_enabled inference_lowered rt e s h = elim (Bool-cases rt.inference_thread.looping) [
      | inl there ↦ (inferrer, refl, inference_enabled rt s there)
      | inr gone ↦ (stopper, refl, ground arith)
    ]
    awaited_enabled inference_stopped rt e s h = (stopper, refl, ground arith)
    awaited_enabled post_lowered rt e s h = elim (Bool-cases rt.post_thread.looping) [
      | inl there ↦ (poster, refl, post_enabled rt s there)
      | inr gone ↦ (stopper, refl, ground arith)
    ]
    awaited_enabled stopped rt e s h = absurd (h refl)
