-- ===== src/Pipeline/Order.antt =====
-- The results that the callback sees, in every schedule of the threads (pipeline/pipeline.cpp).
use pipe_ai_rk3588_industria.Classifier.{classify}
use pipe_ai_rk3588_industria.Types.{InferenceResult, RawSample}
use pipe_ai_rk3588_industria.Queue.{emplace_impl}
use mathlib.Core.Path.{subst}
use mathlib.Core.Option.{some-injective}
use pipe_ai_rk3588_industria.Prelude.{
  ℕ, ◌≡◌, refl, sym, ap, ◌∙◌, true, some, List, [], ◌∷◌, ◌++◌, map, append-nil, append_assoc, arith,
  append-cons,
}
use pipe_ai_rk3588_industria.Floats.{Floats}
use pipe_ai_rk3588_industria.Pipeline.{
  post_step, inference_step, preprocess_step, Stages, Pipeline, submit, started,
}
use pipe_ai_rk3588_industria.Pipeline.Steps.{
  results, held, post-Keeps, inference-Keeps, preprocess-Keeps, feed, infer_all, expected, outcome,
  IsOpen,
}

module _ (fl : Floats) (st : Stages fl) (capacity : ℕ) where
  -- The states that a started pipeline can reach before it is stopped, with the samples that it has
  -- accepted: any threads submit, and the three workers run, in any order.
  pub data Reach : List (RawSample fl) → Pipeline fl → Type 0 where
    begins : {p : Pipeline fl} → p ≡ started fl capacity → Reach [] p
    submits :
        {ss ss' : List (RawSample fl)} {p q : Pipeline fl} (s : RawSample fl)
        → Reach ss p
        → submit fl s p ≡ some (true, q)
        → ss' ≡ ss ++ (s ∷ [])
        → Reach ss' q
    preprocesses :
        {ss : List (RawSample fl)} {p q : Pipeline fl}
        → Reach ss p
        → preprocess_step fl st p.preprocess_worker p ≡ some q
        → Reach ss q
    infers :
        {ss : List (RawSample fl)} {p q : Pipeline fl}
        → Reach ss p
        → inference_step fl st p.inference_worker p ≡ some q
        → Reach ss q
    posts :
        {ss : List (RawSample fl)} {p q : Pipeline fl}
        → Reach ss p
        → post_step fl p.post_ended p ≡ some q
        → Reach ss q

  abbrev pub IsOnCourse : List (RawSample fl) → Pipeline fl → Type 0
  IsOnCourse ss p =
      IsOpen fl st p × ((ys : List (RawSample fl)) → outcome fl st p ys ≡ expected fl st (ss ++ ys))

  submit_open :
      (s : RawSample fl) (p q : Pipeline fl)
      → IsOpen fl st p
      → submit fl s p ≡ some (true, q)
      → submit fl s p
        ≡ some (
          true,
          record p { raw_queue = record p.raw_queue { items = p.raw_queue.items ++ (s ∷ []) } },
        )
  unfolding submit emplace_impl
  submit_open s p q open_p h = ground arith

  submit-outcome :
      (s : RawSample fl) (p q : Pipeline fl) (ys : List (RawSample fl))
      → IsOpen fl st p
      → submit fl s p ≡ some (true, q)
      → IsOpen fl st q × (outcome fl st q ys ≡ outcome fl st p (s ∷ ys))
  unfolding submit emplace_impl
  submit-outcome s p q ys open_p h =
      let r : Pipeline fl = record p {
        raw_queue = record p.raw_queue { items = p.raw_queue.items ++ (s ∷ []) };
      } in
      let same : r ≡ q =
        ap (λ z. z.1) (some-injective _ _ (sym (submit_open s p q open_p h) ∙ h)) in
      subst (λ z. IsOpen fl st z × (outcome fl st z ys ≡ outcome fl st p (s ∷ ys))) same
        (assumption, rw (append_assoc p.raw_queue.items (s ∷ []) ys))

  pub Reach-IsOnCourse : {ss : List (RawSample fl)} {p : Pipeline fl} → Reach ss p → IsOnCourse ss p
  unfolding started
  Reach-IsOnCourse (begins e) = rw e (assumption, λ ys. refl)
  Reach-IsOnCourse (submits {ss} {ss'} {p} {q} s r h e) =
      let (open_p, on) = Reach-IsOnCourse r in
      (
        (submit-outcome s p q [] open_p h).0,
        λ ys.
            (submit-outcome s p q ys open_p h).1
            ∙ on (s ∷ ys)
            ∙ ap (expected fl st) (append-cons ss s ys ∙ ap (λ l. l ++ ys) (sym e)),
      )
  Reach-IsOnCourse (preprocesses {p = p} {q = q} r h) =
      let (open_p, on) = Reach-IsOnCourse r in
      let (open_q, same) = preprocess-Keeps fl st _ _ p q refl refl open_p h in
      (open_q, λ ys. same ys ∙ on ys)
  Reach-IsOnCourse (infers {p = p} {q = q} r h) =
      let (open_p, on) = Reach-IsOnCourse r in
      let (open_q, same) = inference-Keeps fl st _ _ p q refl refl open_p h in
      (open_q, λ ys. same ys ∙ on ys)
  Reach-IsOnCourse (posts {p = p} {q = q} r h) =
      let (open_p, on) = Reach-IsOnCourse r in
      let (open_q, same) = post-Keeps fl st _ _ p q refl open_p h in (open_q, λ ys. same ys ∙ on ys)

  -- Nothing is queued between the stages, and no worker holds a value.
  pub record IsIdle (p : Pipeline fl) : Type 0 where
    pub raw_empty : p.raw_queue.items ≡ []
    pub tensor_empty : p.tensor_queue.items ≡ []
    pub result_empty : p.result_queue.items ≡ []
    pub preprocess_holds_none : held fl st p.preprocess_worker ≡ []
    pub inference_holds_none : held fl st p.inference_worker ≡ []

  -- Until it is stopped, the pipeline delivers, in every schedule of its threads and of the threads
  -- that submit, a prefix of what one thread would compute from the accepted samples in their order:
  -- the windows of 128 samples, those refused by the preprocessor left out, the others numbered from
  -- 1, inferred and classified. Nothing is lost, repeated, reordered or renumbered, and when nothing
  -- is queued or held, all of it has been delivered.
  pub Reach-delivers :
      {ss : List (RawSample fl)} {p : Pipeline fl}
      → Reach ss p
      → ((rest : List (InferenceResult fl)) × (p.delivered ++ rest ≡ expected fl st ss))
        × (IsIdle p → p.delivered ≡ expected fl st ss)
  unfolding feed infer_all
  Reach-delivers {ss} {p} r =
      let on = (Reach-IsOnCourse r).1 [] ∙ ap (expected fl st) (append-nil ss) in
      (
        (map (classify fl) (results fl st p []), on),
        λ idle. sym (
            rw
              (
                idle.raw_empty, idle.tensor_empty, idle.result_empty, idle.preprocess_holds_none,
                idle.inference_holds_none, append-nil,
              )
              at (sym on)),
      )
