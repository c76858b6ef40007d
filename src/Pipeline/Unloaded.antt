-- ===== src/Pipeline/Unloaded.antt =====
-- A pipeline whose engine has no model (pipeline/pipeline.cpp).
use mathlib.Core.Path.{subst}
use pipe_ai_rk3588_industria.Prelude.{
  ℕ, ◌+◌, ◌≡◌, refl, sym, false, some, List, [], ◌∷◌, map, All, All-prefix,
}
use pipe_ai_rk3588_industria.Floats.{Floats}
use pipe_ai_rk3588_industria.Types.{RawSample, ModelInput, InferenceResult}
use pipe_ai_rk3588_industria.Classifier.{classify}
use pipe_ai_rk3588_industria.Classifier.Best.{classify-level}
use pipe_ai_rk3588_industria.Pipeline.{Stages, Pipeline, infer_window}
use pipe_ai_rk3588_industria.Pipeline.Steps.{infer_all, feed}
use pipe_ai_rk3588_industria.Pipeline.Order.{Reach, Reach-delivers}

module _ (fl : Floats) (st : Stages fl) where
  abbrev pub IsFirstClass : InferenceResult fl → Type 0
  IsFirstClass r = r.class_id ≡ some 0

  infer_all_unloaded :
      ((x : fl.F) → fl.lt x x ≡ false)
      → st.engine.initialized ≡ false
      → (k : ℕ) (xs : List (ModelInput fl))
      → All IsFirstClass (map (classify fl) (infer_all fl st k xs))
  unfolding infer_all infer_window
  infer_all_unloaded irrefl off k [] = tt
  infer_all_unloaded irrefl off k (x ∷ xs) =
      (rw off (classify-level fl irrefl _ fl.zero_f refl), infer_all_unloaded irrefl off (k + 1) xs)

  -- A pipeline whose engine is not ready reports, as long as it is not stopped, every window as the
  -- first class, "normal", whatever the samples are, if nothing is below itself in the float order.
  pub Reach-unloaded :
      (capacity : ℕ) {ss : List (RawSample fl)} {p : Pipeline fl}
      → ((x : fl.F) → fl.lt x x ≡ false)
      → st.engine.initialized ≡ false
      → Reach fl st capacity ss p
      → All IsFirstClass p.delivered
  Reach-unloaded capacity {ss} {p} irrefl off r =
      let (rest, prefix) = (Reach-delivers fl st capacity r).0 in
      All-prefix IsFirstClass p.delivered rest
        (subst (All IsFirstClass) (sym prefix) (infer_all_unloaded irrefl off 0 (feed fl st [] ss)))
