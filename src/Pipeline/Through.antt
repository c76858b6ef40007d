-- ===== src/Pipeline/Through.antt =====
-- What passes through the queues, while they are open and behind their closing
-- (pipeline/pipeline.cpp).
use pipe_ai_rk3588_industria.Prelude.{
  ℕ, ◌+◌, ◌≡◌, refl, sym, ap, ◌∙◌, inl, inr, false, Option, none, some, List, [], ◌∷◌, ◌++◌, map,
  append_assoc, leb, Bool-cases, length,
}
use mathlib.Core.Path.{subst}
use mathlib.Core.Option.{some-injective}
use pipe_ai_rk3588_industria.Floats.{Floats}
use pipe_ai_rk3588_industria.Types.{RawSample, ModelInput, InferenceResult, target_length}
use pipe_ai_rk3588_industria.Classifier.{classify}
use pipe_ai_rk3588_industria.Pipeline.{Stages, Pipeline, preprocess, infer_window}
use pipe_ai_rk3588_industria.Pipeline.Steps.{feed, infer_all, held, consed}

-- The first list is how the second begins.
abbrev pub IsPrefix {ℓ} : {A : Type ℓ} → List A → List A → Type ℓ
IsPrefix {A} xs ys = (rest : List A) × (xs ++ rest ≡ ys)

pub IsPrefix-append {ℓ} : {A : Type ℓ} (xs ys zs : List A) → IsPrefix xs ys → IsPrefix xs (ys ++ zs)
IsPrefix-append xs ys zs (rest, e) =
    (rest ++ zs, sym (append_assoc xs rest zs) ∙ ap (λ l. l ++ zs) e)

pub IsPrefix_trans {ℓ} :
    {A : Type ℓ} (xs ys zs : List A) → IsPrefix xs ys → IsPrefix ys zs → IsPrefix xs zs
IsPrefix_trans xs ys zs (r, e) (s, d) = (r ++ s, sym (append_assoc xs r s) ∙ ap (λ l. l ++ s) e ∙ d)

pub map-IsPrefix {ℓ κ} :
    {A : Type ℓ} {B : Type κ} (f : A → B) (xs ys : List A)
    → IsPrefix xs ys
    → IsPrefix (map f xs) (map f ys)
map-IsPrefix f [] ys (r, e) = (map f ys, refl)
map-IsPrefix f (x ∷ xs) ys (r, e) =
    let (s, d) = map-IsPrefix f xs (xs ++ r) (r, refl) in (s, ap (◌∷◌ (f x)) d ∙ ap (map f) e)

pub map-append {ℓ κ} :
    {A : Type ℓ} {B : Type κ} (f : A → B) (xs ys : List A) → map f (xs ++ ys) ≡ map f xs ++ map f ys
map-append f [] ys = refl
map-append f (x ∷ xs) ys = ap (◌∷◌ (f x)) (map-append f xs ys)

module _ (fl : Floats) (st : Stages fl) where
  pub infer_all-IsPrefix :
      (k : ℕ) (xs ys : List (ModelInput fl))
      → IsPrefix xs ys
      → IsPrefix (infer_all fl st k xs) (infer_all fl st k ys)
  unfolding infer_all
  infer_all-IsPrefix k [] ys (r, e) = (infer_all fl st k ys, refl)
  infer_all-IsPrefix k (x ∷ xs) ys (r, e) =
      let (s, d) = infer_all-IsPrefix (k + 1) xs (xs ++ r) (r, refl) in
      (s, ap (◌∷◌ (infer_window fl st (k + 1) x)) d ∙ ap (infer_all fl st k) e)

  consed-IsPrefix :
      (o : Option (ModelInput fl)) (xs ys : List (ModelInput fl))
      → IsPrefix xs ys
      → IsPrefix (consed fl st o xs) (consed fl st o ys)
  consed-IsPrefix none xs ys h = h
  consed-IsPrefix (some x) xs ys (r, e) = (r, ap (◌∷◌ x) e)

  -- More samples add windows at the end only.
  pub feed-IsPrefix :
      (buffer ss ys : List (RawSample fl))
      → IsPrefix (feed fl st buffer ss) (feed fl st buffer (ss ++ ys))
  unfolding feed
  feed-IsPrefix buffer [] ys = (feed fl st buffer ys, refl)
  feed-IsPrefix buffer (s ∷ ss) ys =
      let window = buffer ++ (s ∷ []) in
      elim (Bool-cases (leb target_length (length window))) [
        | inr short ↦ rw short (feed-IsPrefix window ss ys)
        | inl full ↦
            rw full (consed-IsPrefix (preprocess fl st window) _ _ (feed-IsPrefix [] ss ys))
      ]

  -- `tensors_in` and `results_in` are the values that the two inner queues have accepted so far.
  pub record Through (ss : List (RawSample fl)) (p : Pipeline fl) : Type 0 where
    pub tensors_in : List (ModelInput fl)
    pub results_in : List (InferenceResult fl)
    pub fed : IsPrefix tensors_in (feed fl st [] ss)
    pub feeding :
        p.tensor_queue.closed ≡ false
        → (ys : List (RawSample fl))
        → tensors_in
            ++ (held fl st p.preprocess_worker
                ++ feed fl st p.window_buffer (p.raw_queue.items ++ ys))
          ≡ feed fl st [] (ss ++ ys)
    pub inferred : IsPrefix results_in (infer_all fl st 0 tensors_in)
    pub inferring :
        p.result_queue.closed ≡ false
        → (zs : List (ModelInput fl))
        → results_in
            ++ (held fl st p.inference_worker
                ++ infer_all fl st p.window_id (p.tensor_queue.items ++ zs))
          ≡ infer_all fl st 0 (tensors_in ++ zs)
    pub sent : p.delivered ++ map (classify fl) p.result_queue.items ≡ map (classify fl) results_in

  -- A step that gives `r` keeps what holds of `r`.
  pub kept_by :
      (ss : List (RawSample fl)) (o : Option (Pipeline fl)) (q r : Pipeline fl)
      → o ≡ some r
      → Through ss r
      → o ≡ some q
      → Through ss q
  kept_by ss o q r made t h = subst (Through ss) (some-injective _ _ (sym made ∙ h)) t
