-- ===== src/Pipeline/Shutdown/Prefix.antt =====
-- What the callback has seen at any time, also while the pipeline stops (pipeline/pipeline.cpp).
use pipe_ai_rk3588_industria.Prelude.{
  ℕ, ◌≡◌, refl, sym, ◌⊎◌, inl, inr, Bool, true, false, Option, none, some, List, [], ◌∷◌, ◌++◌, map,
  append_assoc, arith, if◌then◌else◌,
}
use mathlib.Core.Path.{subst}
use mathlib.Core.Option.{some-injective}
use pipe_ai_rk3588_industria.Floats.{Floats}
use pipe_ai_rk3588_industria.Types.{RawSample, InferenceResult}
use pipe_ai_rk3588_industria.Queue.{emplace_impl, close}
use pipe_ai_rk3588_industria.Classifier.{classify}
use pipe_ai_rk3588_industria.Pipeline.{
  Stages, Pipeline, submit, started, stop_raw, stop_tensor, stop_result,
}
use pipe_ai_rk3588_industria.Pipeline.Steps.{feed, infer_all, expected}
use pipe_ai_rk3588_industria.Pipeline.Through.{
  IsPrefix, IsPrefix_trans, map-IsPrefix, infer_all-IsPrefix, feed-IsPrefix, Through,
}
use pipe_ai_rk3588_industria.Pipeline.Passage.First.{preprocess-Through}
use pipe_ai_rk3588_industria.Pipeline.Passage.Second.{inference-Through}
use pipe_ai_rk3588_industria.Pipeline.Passage.Third.{post-Through}
use pipe_ai_rk3588_industria.Pipeline.Shutdown.{
  Runtime, Actor, preprocessor, inferrer, poster, stopper, act, Runs, begins, submits, acts,
  launched, stop_step, on_submit, Phase, serving, raw_shut, tensor_shut,
}
use pipe_ai_rk3588_industria.Pipeline.Shutdown.Cases.{
  preprocess_go-GoesOn, inference_go-GoesOn, post_go-GoesOn,
}

module _ (fl : Floats) (st : Stages fl) where
  submit_refused : (s : RawSample fl) (p q : Pipeline fl) → submit fl s p ≡ some (false, q) → p ≡ q
  unfolding submit emplace_impl
  submit_refused s p q h = ground arith

  submit_accepted :
      (s : RawSample fl) (p q : Pipeline fl)
      → submit fl s p ≡ some (true, q)
      → record p { raw_queue = record p.raw_queue { items = p.raw_queue.items ++ (s ∷ []) } } ≡ q
  unfolding submit emplace_impl
  submit_accepted s p q h = ground arith

  submit-Through :
      (ss : List (RawSample fl)) (s : RawSample fl) (p q : Pipeline fl) (done : Bool)
      → Through fl st ss p
      → submit fl s p ≡ some (done, q)
      → Through fl st (if done then ss ++ (s ∷ []) else ss) q
  submit-Through ss s p q false t h = subst (Through fl st ss) (submit_refused s p q h) t
  submit-Through ss s p q true t h =
      subst (Through fl st (ss ++ (s ∷ []))) (submit_accepted s p q h) (record {
        tensors_in = t.tensors_in;
        results_in = t.results_in;
        fed =
            IsPrefix_trans t.tensors_in (feed fl st [] ss) (feed fl st [] (ss ++ (s ∷ []))) t.fed
              (feed-IsPrefix fl st [] ss (s ∷ []));
        feeding = λ live ys.
            rw (append_assoc p.raw_queue.items (s ∷ []) ys, append_assoc ss (s ∷ []) ys)
              (t.feeding live (s ∷ ys));
        inferred = t.inferred;
        inferring = t.inferring;
        sent = t.sent;
      })

  pub on_submit-some :
      (o : Option (Bool × Pipeline fl)) (rt rt' : Runtime fl) (done : Bool)
      → on_submit fl rt o ≡ some (done, rt')
      → o ≡ some (done, rt'.pipeline)
  on_submit-some none rt rt' done h = absurd (cc)
  on_submit-some (some (d, p)) rt rt' done h = ground (arith, some-injective _ _ h)

  stop_raw-Through :
      (ss : List (RawSample fl)) (p : Pipeline fl)
      → Through fl st ss p
      → Through fl st ss (stop_raw fl p)
  unfolding stop_raw close
  stop_raw-Through ss p t = record {
    tensors_in = t.tensors_in;
    results_in = t.results_in;
    fed = t.fed;
    feeding = t.feeding;
    inferred = t.inferred;
    inferring = t.inferring;
    sent = t.sent;
  }

  stop_tensor-Through :
      (ss : List (RawSample fl)) (p : Pipeline fl)
      → Through fl st ss p
      → Through fl st ss (stop_tensor fl p)
  unfolding stop_tensor close
  stop_tensor-Through ss p t = record {
    tensors_in = t.tensors_in;
    results_in = t.results_in;
    fed = t.fed;
    feeding = λ live. absurd (cc (live));
    inferred = t.inferred;
    inferring = t.inferring;
    sent = t.sent;
  }

  stop_result-Through :
      (ss : List (RawSample fl)) (p : Pipeline fl)
      → Through fl st ss p
      → Through fl st ss (stop_result fl p)
  unfolding stop_result close
  stop_result-Through ss p t = record {
    tensors_in = t.tensors_in;
    results_in = t.results_in;
    fed = t.fed;
    feeding = t.feeding;
    inferred = t.inferred;
    inferring = λ live. absurd (cc (live));
    sent = t.sent;
  }

  -- Behind the closing, `stop` leaves the pipeline to the threads.
  stop_step_rest :
      (ph : Phase) (rt rt' : Runtime fl)
      → stop_step fl ph rt ≡ some rt'
      → (ph ≡ serving) ⊎ ((ph ≡ raw_shut) ⊎ ((ph ≡ tensor_shut) ⊎ (rt.pipeline ≡ rt'.pipeline)))
  unfolding stop_step
  stop_step_rest ph rt rt' h = ground arith

  stop_step-Through :
      (ss : List (RawSample fl)) (ph : Phase) (rt rt' : Runtime fl)
      → Through fl st ss rt.pipeline
      → stop_step fl ph rt ≡ some rt'
      → Through fl st ss rt'.pipeline
  unfolding stop_step
  stop_step-Through ss ph rt rt' t h = elim (stop_step_rest ph rt rt' h) [
    | inl a ↦
        subst (λ z. Through fl st ss z.pipeline) (some-injective _ _ (rw a at h))
          (stop_raw-Through ss rt.pipeline t)
    | inr (inl b) ↦
        subst (λ z. Through fl st ss z.pipeline) (some-injective _ _ (rw b at h))
          (stop_tensor-Through ss rt.pipeline t)
    | inr (inr (inl c)) ↦
        subst (λ z. Through fl st ss z.pipeline) (some-injective _ _ (rw c at h))
          (stop_result-Through ss rt.pipeline t)
    | inr (inr (inr same)) ↦ subst (Through fl st ss) same t
  ]

  act-Through :
      (ss : List (RawSample fl)) (a : Actor) (rt rt' : Runtime fl)
      → Through fl st ss rt.pipeline
      → act fl st a rt ≡ some rt'
      → Through fl st ss rt'.pipeline
  act-Through ss preprocessor rt rt' t h = elim (preprocess_go-GoesOn fl st rt rt' h).1 [
    | inl (out, e) ↦ subst (λ z. Through fl st ss z.pipeline) e t
    | inr (on, q, made, e) ↦
        subst (λ z. Through fl st ss z.pipeline) e
          (preprocess-Through fl st ss _ _ rt.pipeline q refl refl t made)
  ]
  act-Through ss inferrer rt rt' t h = elim (inference_go-GoesOn fl st rt rt' h).1 [
    | inl (out, e) ↦ subst (λ z. Through fl st ss z.pipeline) e t
    | inr (on, q, made, e) ↦
        subst (λ z. Through fl st ss z.pipeline) e
          (inference-Through fl st ss _ _ rt.pipeline q refl refl t made)
  ]
  act-Through ss poster rt rt' t h = elim (post_go-GoesOn fl rt rt' h).1 [
    | inl (out, e) ↦ subst (λ z. Through fl st ss z.pipeline) e t
    | inr (on, q, made, e) ↦
        subst (λ z. Through fl st ss z.pipeline) e
          (post-Through fl st ss _ _ rt.pipeline q refl t made)
  ]
  act-Through ss stopper rt rt' t h = stop_step-Through ss rt.phase rt rt' t h

  Runs-Through :
      {capacity : ℕ} {ss : List (RawSample fl)} {rt : Runtime fl}
      → Runs fl st capacity ss rt
      → Through fl st ss rt.pipeline
  unfolding launched started
  Runs-Through (begins e) = rw e (record {
    tensors_in = [];
    results_in = [];
    fed = (_, refl);
    feeding = λ _ ys. refl;
    inferred = (_, refl);
    inferring = λ _ zs. refl;
    sent = refl;
  })
  Runs-Through (submits {ss = ss} {rt = rt} {rt' = rt'} s done r h e) =
      subst (λ l. Through fl st l rt'.pipeline) (sym e)
        (submit-Through ss s rt.pipeline rt'.pipeline done (Runs-Through r)
          (on_submit-some _ rt rt' done h))
  Runs-Through (acts {ss = ss} {rt = rt} {rt' = rt'} a r h) =
      act-Through ss a rt rt' (Runs-Through r) h

  -- At any time of any schedule, before, during and after `stop`, what the callback has seen is how
  -- the results begin that one thread would compute from the accepted samples: `stop` may cut the
  -- sequence off, and does not change, reorder or skip a result.
  pub Runs-IsPrefix :
      {capacity : ℕ} {ss : List (RawSample fl)} {rt : Runtime fl}
      → Runs fl st capacity ss rt
      → IsPrefix rt.pipeline.delivered (expected fl st ss)
  Runs-IsPrefix {capacity} {ss} {rt} r =
      let t = Runs-Through r in
      let delivered : List (InferenceResult fl) = rt.pipeline.delivered in
      IsPrefix_trans delivered (map (classify fl) t.results_in) (expected fl st ss)
        (map (classify fl) rt.pipeline.result_queue.items, t.sent)
        (map-IsPrefix (classify fl) t.results_in (infer_all fl st 0 (feed fl st [] ss)) (
          IsPrefix_trans t.results_in (infer_all fl st 0 t.tensors_in)
            (infer_all fl st 0 (feed fl st [] ss)) t.inferred
            (infer_all-IsPrefix fl st 0 t.tensors_in (feed fl st [] ss) t.fed)))
