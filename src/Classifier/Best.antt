-- ===== src/Classifier/Best.antt =====
-- The class is one of the five, and none is more probable (postprocess/classifier.cpp).
use pipe_ai_rk3588_industria.Prelude.{
  ℕ, ◌+◌, ◌<◌, ◌≡◌, refl, ap, ◌∙◌, ◌≢◌, inl, inr, true, false, none, some, List, [], ◌∷◌, ◌++◌, map,
  append-nil, arith, Bool-cases, length, length-append, get_or, length-map, get_or-append,
  append-cons, get_or-append_left,
}
use pipe_ai_rk3588_industria.Floats.{Floats, IsIeee}
use pipe_ai_rk3588_industria.Types.{InferenceResult, class_count}
use pipe_ai_rk3588_industria.Classifier.{max_from, max_element, softmax, sum_from, classify, label}

label_known : (k : ℕ) → k < class_count → label (some k) ≢ label none
unfolding label
label_known k h = grind arith

module _ (fl : Floats) where
  open fl use {F, zero_f, quiet_nan, lt, sub, exp, div}

  -- No entry is above the value.
  abbrev pub NoneAbove : F → List F → Type 0
  NoneAbove best [] = Unit {0}
  NoneAbove best (x ∷ xs) = (lt best x ≡ false) × NoneAbove best xs

  pub length-softmax : (l : List F) → length (softmax fl l) ≡ length l
  unfolding softmax
  length-softmax l =
      elim (Bool-cases
        (lt zero_f (sum_from fl zero_f (map (λ x. exp (sub x (max_element fl l).1)) l)))) [
          | inl plus ↦ rw plus (length-map (map _ l) _ ∙ length-map l _)
          | inr minus ↦ rw minus (length-map l _)
        ]

  module _ (laws : IsIeee fl) where
    NoneAbove-trans :
        (best x : F) (xs : List F) → lt best x ≡ true → NoneAbove best xs → NoneAbove x xs
    NoneAbove-trans best x [] h k = tt
    NoneAbove-trans best x (y ∷ ys) h (k, ks) =
        (ground (arith, laws.lt_trans best x y h), NoneAbove-trans best x ys h ks)

    NoneAbove-append :
        (best : F) (xs ys : List F)
        → NoneAbove best xs
        → NoneAbove best ys
        → NoneAbove best (xs ++ ys)
    NoneAbove-append best [] ys h k = k
    NoneAbove-append best (x ∷ xs) ys (h, hs) k = (h, NoneAbove-append best xs ys hs k)

    -- Behind `done`, with the best of it at index `k`.
    max_from-NoneAbove :
        (done : List F) (best : F) (k : ℕ) (xs : List F) (i : ℕ)
        → i ≡ length done
        → NoneAbove best done
        → k < i
        → get_or done k quiet_nan ≡ best
        → let (k', best') = max_from fl best k i xs in
          (k' < length (done ++ xs))
          × (get_or (done ++ xs) k' quiet_nan ≡ best')
          × NoneAbove best' (done ++ xs)
    unfolding max_from
    max_from-NoneAbove done best k [] i e h kb at = rw (append-nil done) (omega arith, at, h)
    max_from-NoneAbove done best k (x ∷ xs) i e h kb at =
        let longer = done ++ (x ∷ []) in
        let size : i + 1 ≡ length longer = omega (arith, length-append done (x ∷ [])) in
        elim (Bool-cases (lt best x)) [
          | inl above ↦
              rw (above, max_from, append-cons done x xs)
                (max_from-NoneAbove longer x i xs (i + 1) size
                  (NoneAbove-append x done (x ∷ []) (NoneAbove-trans best x done above h)
                    (laws.lt_irrefl x, tt))
                  (omega arith)
                  (ap (λ j. get_or longer j quiet_nan) e ∙ get_or-append done x quiet_nan []))
          | inr below ↦
              rw (below, max_from, append-cons done x xs)
                (max_from-NoneAbove longer best k xs (i + 1) size
                  (NoneAbove-append best done (x ∷ []) h (below, tt)) (omega arith)
                  (get_or-append_left done (x ∷ []) k quiet_nan (omega arith) ∙ at))
        ]

    max_element-NoneAbove :
        (xs : List F)
        → 0 < length xs
        → let (k, best) = max_element fl xs in
          (k < length xs) × (get_or xs k quiet_nan ≡ best) × NoneAbove best xs
    unfolding max_element
    max_element-NoneAbove [] h = absurd (omega arith)
    max_element-NoneAbove (x ∷ xs) h =
        max_from-NoneAbove (x ∷ []) x 0 xs 1 refl (laws.lt_irrefl x, tt) (omega arith) refl

    -- If the float order is that of IEEE 754: for five logits the class is one of the five, its label
    -- is not the one for unknown classes, the confidence is the probability of that class, and no
    -- class has a greater one.
    pub classify_best :
        (r : InferenceResult fl)
        → length r.logits ≡ class_count
        → let c = classify fl r in
          (k : ℕ) × (c.class_id ≡ some k)
          × (k < class_count)
          × (label c.class_id ≢ label none)
          × (get_or c.probabilities k quiet_nan ≡ c.confidence)
          × NoneAbove c.confidence c.probabilities
    unfolding classify label
    classify_best r h =
        let size = length-softmax r.logits in
        let (inside, own, best) =
          max_element-NoneAbove (softmax fl r.logits) (omega (arith, size, h)) in
        let k = (max_element fl (softmax fl r.logits)).0 in
        let small : k < class_count = omega (arith, size, h) in
        (k, refl, small, label_known k small, own, best)

  -- With five equal logits every class is equally probable, and the first class wins.
  abbrev level : F → List F
  level l = l ∷ l ∷ l ∷ l ∷ l ∷ []

  module _ (irrefl : (x : F) → lt x x ≡ false) where
    max_element-level : (x : F) → max_element fl (level x) ≡ (0, x)
    unfolding max_element max_from
    max_element-level x = ground (arith, irrefl x)

    softmax-level : (l : F) → (p : F) × (softmax fl (level l) ≡ level p)
    unfolding softmax
    softmax-level l =
        let p = exp (sub l l) in
        let s = sum_from fl zero_f (level p) in
        elim (Bool-cases (lt zero_f s)) [
          | inl plus ↦ (div p s, rw (max_element-level l, plus))
          | inr minus ↦ (p, rw (max_element-level l, minus))
        ]

    pub classify-level :
        (r : InferenceResult fl) (l : F) → r.logits ≡ level l → (classify fl r).class_id ≡ some 0
    unfolding classify
    classify-level r l e = let (p, same) = softmax-level l in rw (e, same, max_element-level p)
