-- ===== src/Classifier/Tests.antt =====
-- The classifier at concrete logits (postprocess/classifier.cpp).
use pipe_ai_rk3588_industria.Prelude.{ℕ, ◌<◌, ◌≡◌, refl, ◌≢◌, Option, none, some, [], ◌∷◌, get_or}
use pipe_ai_rk3588_industria.Prelude.Int.{ℤ, pos}
use pipe_ai_rk3588_industria.Floats.Fixed.{fixed, fixed-IsIeee}
use pipe_ai_rk3588_industria.Types.{InferenceResult, blank_result, class_count}
use pipe_ai_rk3588_industria.Classifier.{classify, max_element, max_from, label}
use pipe_ai_rk3588_industria.Classifier.Best.{NoneAbove, classify_best}

abbrev num : ℕ → Option ℤ
num n = some (pos n)

abbrev scored : InferenceResult fixed
scored = record (blank_result fixed) { logits = num 1 ∷ num 2 ∷ num 9 ∷ num 9 ∷ num 0 ∷ [] }

first_of_equals : max_element fixed scored.logits ≡ (2, num 9)
unfolding max_element max_from
first_of_equals = refl

classify_best_example :
    let c = classify fixed scored in
    (k : ℕ) × (c.class_id ≡ some k)
    × (k < class_count)
    × (label c.class_id ≢ label none)
    × (get_or c.probabilities k none ≡ c.confidence)
    × NoneAbove fixed c.confidence c.probabilities
classify_best_example = classify_best fixed fixed-IsIeee scored refl
