-- ===== src/Pipeline/Shutdown/Threads.antt =====
-- The threads through the whole life of a pipeline (pipeline/pipeline.cpp and
-- pipeline/worker.cpp).
use pipe_ai_rk3588_industria.Prelude.{
  ◌≤◌, ◌≡◌, refl, ◌∙◌, inl, inr, Bool, true, false, ◌&&◌, some, List, arith,
}
use mathlib.Core.Path.{subst}
use pipe_ai_rk3588_industria.Floats.{Floats}
use pipe_ai_rk3588_industria.Types.{RawSample}
use pipe_ai_rk3588_industria.Queue.{close}
use pipe_ai_rk3588_industria.Worker.{Worker, leave}
use pipe_ai_rk3588_industria.Pipeline.{Stages, stop_raw, stop_tensor, stop_result}
use pipe_ai_rk3588_industria.Pipeline.Shutdown.{
  Runtime, preprocessor, inferrer, poster, act, stop_step, Phase, serving, raw_shut, tensor_shut,
  queues_shut, preprocess_lowered, preprocess_stopped, inference_lowered, inference_stopped,
  post_lowered, stopped, is_out,
}
use pipe_ai_rk3588_industria.Pipeline.Shutdown.Cases.{
  preprocess_go-GoesOn, inference_go-GoesOn, post_go-GoesOn,
}
use pipe_ai_rk3588_industria.Pipeline.Shutdown.Turns.{
  steps_left, Stage, before, during, after, preprocess_stage, inference_stage, post_stage,
}
use pipe_ai_rk3588_industria.Pipeline.Shutdown.Outcome.{
  IsSpent, preprocess-Outcome, inference-Outcome, post-Outcome,
}

-- A thread's flag and its place, by how far `stop` is with it.
pub record Threaded (g : Stage) (w : Worker) (out : Bool) : Type 0 where
  pub up : g ≡ before → (w.running ≡ true) × (w.joinable ≡ true)
  pub down : g ≡ during → (w.running ≡ false) × (w.joinable ≡ true)
  pub gone : g ≡ after → w.looping ≡ false
  pub left : w.looping ≡ false → out ≡ true

Threaded-leave :
    (g : Stage) (w : Worker) (out : Bool) → Threaded g w out → out ≡ true → Threaded g (leave w) out
Threaded-leave g w out t h = record { up = t.up; down = t.down; gone = λ _. refl; left = λ _. h }

Threaded-step :
    (g : Stage) (w : Worker) (out out' : Bool)
    → Threaded g w out
    → w.looping ≡ true
    → Threaded g w out'
Threaded-step g w out out' t h = record {
  up = t.up;
  down = t.down;
  gone = t.gone;
  left = λ e. absurd (cc (h, e));
}

module _ (fl : Floats) where
  pub record Inv (ss : List (RawSample fl)) (rt : Runtime fl) : Type 0 where
    pub spent : IsSpent fl ss rt.pipeline
    pub raw_by : steps_left rt.phase ≤ 8 → rt.pipeline.raw_queue.closed ≡ true
    pub tensor_by : steps_left rt.phase ≤ 7 → rt.pipeline.tensor_queue.closed ≡ true
    pub result_by : steps_left rt.phase ≤ 6 → rt.pipeline.result_queue.closed ≡ true
    pub first :
        Threaded
          (preprocess_stage rt.phase)
          rt.preprocess_thread
          (is_out rt.pipeline.preprocess_worker)
    pub second :
        Threaded
          (inference_stage rt.phase)
          rt.inference_thread
          (is_out rt.pipeline.inference_worker)
    pub third : Threaded (post_stage rt.phase) rt.post_thread rt.pipeline.post_ended

  and_first : (a b : Bool) → (a && b) ≡ true → a ≡ true
  and_first true b h = refl
  and_first false b h = h

  module _ (st : Stages fl) where
    pub preprocess_go-Inv :
        (ss : List (RawSample fl)) (rt rt' : Runtime fl)
        → Inv ss rt
        → act fl st preprocessor rt ≡ some rt'
        → Inv ss rt'
    preprocess_go-Inv ss rt rt' v h =
        let (there, way) = preprocess_go-GoesOn fl st rt rt' h in
        elim way [
          | inl (out, e) ↦ subst (Inv ss) e (record {
            spent = v.spent;
            raw_by = v.raw_by;
            tensor_by = v.tensor_by;
            result_by = v.result_by;
            first = Threaded-leave _ _ _ v.first (and_first _ _ out);
            second = v.second;
            third = v.third;
          })
          | inr (on, q, made, e) ↦
              let ((spent, same), worker, post) =
                preprocess-Outcome fl st ss _ _ rt.pipeline q refl refl v.spent made in
              subst (Inv ss) e (record {
                spent = spent;
                raw_by = λ k. same.raw_same ∙ v.raw_by k;
                tensor_by = λ k. same.tensor_same ∙ v.tensor_by k;
                result_by = λ k. same.result_same ∙ v.result_by k;
                first = Threaded-step _ _ _ _ v.first there;
                second = rw worker v.second;
                third = rw post v.third;
              })
        ]

    pub inference_go-Inv :
        (ss : List (RawSample fl)) (rt rt' : Runtime fl)
        → Inv ss rt
        → act fl st inferrer rt ≡ some rt'
        → Inv ss rt'
    inference_go-Inv ss rt rt' v h =
        let (there, way) = inference_go-GoesOn fl st rt rt' h in
        elim way [
          | inl (out, e) ↦ subst (Inv ss) e (record {
            spent = v.spent;
            raw_by = v.raw_by;
            tensor_by = v.tensor_by;
            result_by = v.result_by;
            first = v.first;
            second = Threaded-leave _ _ _ v.second (and_first _ _ out);
            third = v.third;
          })
          | inr (on, q, made, e) ↦
              let ((spent, same), worker, post) =
                inference-Outcome fl st ss _ rt.pipeline q refl v.spent made in
              subst (Inv ss) e (record {
                spent = spent;
                raw_by = λ k. same.raw_same ∙ v.raw_by k;
                tensor_by = λ k. same.tensor_same ∙ v.tensor_by k;
                result_by = λ k. same.result_same ∙ v.result_by k;
                first = rw worker v.first;
                second = Threaded-step _ _ _ _ v.second there;
                third = rw post v.third;
              })
        ]

    pub post_go-Inv :
        (ss : List (RawSample fl)) (rt rt' : Runtime fl)
        → Inv ss rt
        → act fl st poster rt ≡ some rt'
        → Inv ss rt'
    post_go-Inv ss rt rt' v h =
        let (there, way) = post_go-GoesOn fl rt rt' h in
        elim way [
          | inl (out, e) ↦ subst (Inv ss) e (record {
            spent = v.spent;
            raw_by = v.raw_by;
            tensor_by = v.tensor_by;
            result_by = v.result_by;
            first = v.first;
            second = v.second;
            third = Threaded-leave _ _ _ v.third (and_first _ _ out);
          })
          | inr (on, q, made, e) ↦
              let ((spent, same), worker, infers) =
                post-Outcome fl ss _ rt.pipeline q refl v.spent made in
              subst (Inv ss) e (record {
                spent = spent;
                raw_by = λ k. same.raw_same ∙ v.raw_by k;
                tensor_by = λ k. same.tensor_same ∙ v.tensor_by k;
                result_by = λ k. same.result_same ∙ v.result_by k;
                first = rw worker v.first;
                second = rw infers v.second;
                third = Threaded-step _ _ _ _ v.third there;
              })
        ]

    pub stop_step-Inv :
        (ss : List (RawSample fl)) (ph : Phase) (rt rt' : Runtime fl)
        → rt.phase ≡ ph
        → Inv ss rt
        → stop_step fl ph rt ≡ some rt'
        → Inv ss rt'
    unfolding stop_step stop_raw stop_tensor stop_result close
    stop_step-Inv ss serving rt rt' e v h = ground arith
    stop_step-Inv ss raw_shut rt rt' e v h = ground arith
    stop_step-Inv ss tensor_shut rt rt' e v h = ground arith
    stop_step-Inv ss queues_shut rt rt' e v h = ground arith
    stop_step-Inv ss preprocess_lowered rt rt' e v h = ground arith
    stop_step-Inv ss preprocess_stopped rt rt' e v h = ground arith
    stop_step-Inv ss inference_lowered rt rt' e v h = ground arith
    stop_step-Inv ss inference_stopped rt rt' e v h = ground arith
    stop_step-Inv ss post_lowered rt rt' e v h = ground arith
    stop_step-Inv ss stopped rt rt' e v h = ground arith
