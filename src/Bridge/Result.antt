-- ===== src/Bridge/Result.antt =====
-- What the bridge returns, and when it is ready (pipeline/inference_pipeline_bridge.cpp).
use pipe_ai_rk3588_industria.Prelude.{
  ℕ, ◌<◌, ◌≡◌, refl, ◌∙◌, ◌≢◌, inl, inr, true, false, Option, none, some, List, [], ◌∷◌, arith, ltb,
  Bool-cases, length, take, length-take,
}
use pipe_ai_rk3588_industria.Floats.{Floats, IsIeee}
use pipe_ai_rk3588_industria.Text.{Bytes}
use pipe_ai_rk3588_industria.Status.{is_ok}
use pipe_ai_rk3588_industria.Types.{RawSample, InferenceResult, class_count, cleared_input}
use pipe_ai_rk3588_industria.Preprocessor.{PreprocessOptions}
use pipe_ai_rk3588_industria.Preprocessor
use pipe_ai_rk3588_industria.Engine.{
  Engine, Sdk, ModelFile, missing, unreadable, holds, load, infer,
}
use pipe_ai_rk3588_industria.Classifier.{classify}
use pipe_ai_rk3588_industria.Classifier.Best.{NoneAbove, classify_best}
use pipe_ai_rk3588_industria.Bridge.{
  Bridge, new_bridge, initialize, release, run, Call, initializes, releases, operate,
}

module _ (fl : Floats) where
  load_ready :
      (sdk : Option (Sdk fl)) (path : Bytes) (file : ModelFile) (e : Engine)
      → is_ok (load fl sdk path file e).0 ≡ true
      → (load fl sdk path file e).1.initialized ≡ true
  unfolding load
  load_ready sdk path missing e h = ground arith
  load_ready sdk path unreadable e h = ground arith
  load_ready sdk path (holds []) e h = ground arith
  load_ready none path (holds (b ∷ bs)) e h = ground arith
  load_ready (some sdk) path (holds (b ∷ bs)) e h = ground arith

module _ (fl : Floats) (sdk : Option (Sdk fl)) where
  operate-ready :
      (calls : List Call) (b : Bridge)
      → (b.ready ≡ true → b.engine.initialized ≡ true)
      → (operate fl sdk calls b).ready ≡ true
      → (operate fl sdk calls b).engine.initialized ≡ true
  unfolding operate initialize release
  operate-ready [] b h = h
  operate-ready (initializes none file ∷ calls) b h = operate-ready calls b h
  operate-ready (initializes (some model) file ∷ calls) b h =
      operate-ready calls (initialize fl sdk (some model) file b).1
        (load_ready fl sdk model file b.engine)
  operate-ready (releases ∷ calls) b h = operate-ready calls (release fl sdk b) (λ e. ground arith)

  -- After any sequence of initializations, good or failed, and releases, a bridge that counts itself
  -- ready has a ready engine.
  operate_new-ready :
      (calls : List Call)
      → (operate fl sdk calls new_bridge).ready ≡ true
      → (operate fl sdk calls new_bridge).engine.initialized ≡ true
  operate_new-ready calls = operate-ready calls new_bridge (λ e. e)

  module _ (ieee : IsIeee fl) where
    -- A run that fails leaves the result alone. One that succeeds had a ready bridge and at least one
    -- sample; the class is one of the five, no class is more probable than the reported confidence,
    -- and the window's number is kept.
    pub run_result :
        (options : PreprocessOptions fl) (samples : List (RawSample fl))
        (result : InferenceResult fl) (b : Bridge)
        → let (done, r) = run fl sdk options samples result b in
          (done ≡ false → r ≡ result)
          × (done ≡ true
              → (b.ready ≡ true)
                × (samples ≢ [])
                × (r.window_id ≡ result.window_id)
                × ((k : ℕ) × (r.class_id ≡ some k)
                    × (k < class_count)
                    × NoneAbove fl r.confidence r.probabilities))
    unfolding run Preprocessor.run classify
    run_result options [] result b = elim (Bool-cases b.ready) [
      | inr off ↦ rw off (λ _. refl, λ e. absurd (ground arith))
      | inl on ↦ rw on (λ _. refl, λ e. absurd (ground arith))
    ]
    run_result options (s ∷ samples) result b =
        let pre = Preprocessor.run fl options (s ∷ samples) (cleared_input fl) in
        let out = infer fl sdk b.engine pre.1 [] in
        elim (Bool-cases b.ready) [
          | inr off ↦ rw off (λ _. refl, λ e. absurd (ground arith))
          | inl on ↦ elim (Bool-cases (is_ok pre.0)) [
            | inr bad ↦ rw (on, bad) (λ _. refl, λ e. absurd (ground arith))
            | inl clean ↦ elim (Bool-cases (is_ok out.0)) [
              | inr bad ↦ rw (on, clean, bad) (λ _. refl, λ e. absurd (ground arith))
              | inl good ↦ elim (Bool-cases (ltb (length out.1) class_count)) [
                | inl short ↦ rw (on, clean, good, short) (λ _. refl, λ e. absurd (ground arith))
                | inr long ↦
                    let five : length (take class_count out.1) ≡ class_count =
                      length-take class_count out.1 ∙ ground arith in
                    let (k, class, small, known, own, best) =
                      classify_best fl ieee (record result { logits = take class_count out.1 })
                        five in
                    rw (on, clean, good, long)
                      (
                        λ e. absurd (ground arith),
                        λ _. (refl, (λ e. ground arith), refl, (k, class, small, best)),
                      )
              ]
            ]
          ]
        ]
