-- ===== src/Classifier.antt =====
-- Class probabilities and the class: postprocess/softmax.cpp and postprocess/classifier.cpp.
pub mod Best
pub mod Tests
use pipe_ai_rk3588_industria.Prelude.{
  ℕ, ◌+◌, Option, none, some, List, [], ◌∷◌, map, ◌==◌, if◌then◌else◌,
}
use pipe_ai_rk3588_industria.Floats.{Floats}
use pipe_ai_rk3588_industria.Text.{Bytes, codes}
use pipe_ai_rk3588_industria.Types.{InferenceResult}

module _ (fl : Floats) where
  open fl use {F, zero_f, quiet_nan, lt, add, sub, div, exp}

  -- `std::max_element` behind the first element: the best so far, its index, and the next index.
  unfoldable pub max_from : F → ℕ → ℕ → List F → ℕ × F
  max_from best k i [] = (k, best)
  max_from best k i (x ∷ xs) =
      max_from (if lt best x then x else best) (if lt best x then i else k) (i + 1) xs

  -- Index and value; the source's arrays are not empty.
  unfoldable pub max_element : List F → ℕ × F
  max_element [] = (0, quiet_nan)
  max_element (x ∷ xs) = max_from x 0 1 xs

  -- `p[i] = exp(logits[i] - m)`, and the sum `s` in the order of the loop.
  abbrev pub exponentials : F → List F → List F
  exponentials m = map (λ l. exp (sub l m))

  unfoldable pub sum_from : F → List F → F
  sum_from s [] = s
  sum_from s (p ∷ ps) = sum_from (add s p) ps

  unfoldable pub softmax : List F → List F
  softmax logits =
      let p = exponentials (max_element logits).1 logits in
      let s = sum_from zero_f p in if lt zero_f s then map (λ v. div v s) p else p

  unfoldable pub classify : InferenceResult fl → InferenceResult fl
  classify r =
      let probabilities = softmax r.logits in
      let (k, best) = max_element probabilities in
      record r { probabilities = probabilities; class_id = some k; confidence = best }

-- `none` is a negative id.
unfoldable pub label : Option ℕ → Bytes
label none = codes "unknown"
label (some id) =
    if id == 0
    then codes "normal"
    else if id == 1
    then codes "collapse"
    else if id == 2
    then codes "bulge"
    else if id == 3
    then codes "flip"
    else if id == 4
    then codes "torsion"
    else codes "unknown"
