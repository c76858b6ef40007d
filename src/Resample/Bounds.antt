-- ===== src/Resample/Bounds.antt =====
-- Lengths, ends and indices of the resampler (preprocess/resample.cpp).
use pipe_ai_rk3588_industria.Prelude.{
  ℕ, zero, suc, ◌-◌, ◌≤◌, ◌<◌, ◌≡◌, refl, ap, ◌∙◌, ◌≢◌, ◌↔◌, inl, inr, true, false, List, [], ◌∷◌,
  arith, leb, ◌==◌, Bool-cases, length, length-set, get_or, replicate, length-replicate,
  length-tabulate, get_or-tabulate, get_or-set_self, get_or-set_ne,
}
use pipe_ai_rk3588_industria.Floats.{Floats, IsIeee}
use pipe_ai_rk3588_industria.Status.{is_ok}
use pipe_ai_rk3588_industria.Resample.{
  linspace01_float32, upper_bound, value_at, front, back, interp_one, resample_linear_normalized,
}

module _ (fl : Floats) where
  open fl use {F, zero_f, one_f, quiet_nan, is_nan, le, lt}

  length-linspace01 : (n : ℕ) → length (linspace01_float32 fl n) ≡ n
  unfolding linspace01_float32
  length-linspace01 n = elim (Bool-cases (leb n 1)) [
    | inl small ↦ rw small (length-replicate n zero_f)
    | inr big ↦ rw (big, length-set _ (n - 1) one_f, length-set _ 0 zero_f) (length-tabulate _ 0 n)
  ]

  linspace01_first : (n : ℕ) → 1 < n → front fl (linspace01_float32 fl n) ≡ zero_f
  unfolding linspace01_float32
  linspace01_first n h =
      let big : leb n 1 ≡ false = ground arith in
      rw big (
        get_or-set_ne _ (n - 1) 0 one_f quiet_nan (omega arith)
        ∙ get_or-set_self _ 0 zero_f quiet_nan (omega (arith, length-tabulate {0} {A = F})))

  linspace01_last : (n : ℕ) → 1 < n → value_at fl (linspace01_float32 fl n) (n - 1) ≡ one_f
  unfolding linspace01_float32
  linspace01_last n h =
      let big : leb n 1 ≡ false = ground arith in
      rw big (
        get_or-set_self _ (n - 1) one_f quiet_nan
          (omega (arith, length-set {0} {A = F}, length-tabulate {0} {A = F})))

  -- The resampler refuses an empty sequence and a length of zero, and nothing else; a refusal leaves
  -- the output as it was, and a success gives it the target length.
  pub resample_total :
      (source : List F) (target : ℕ) (output : List F)
      → let (status, result) = resample_linear_normalized fl source target output in
        ((is_ok status ≡ true) ↔ ((source ≢ []) × (0 < target)))
        × (is_ok status ≡ false → result ≡ output)
        × (is_ok status ≡ true → length result ≡ target)
  unfolding resample_linear_normalized
  resample_total [] target output = ground arith
  resample_total (s ∷ source) target output = ground (
    arith,
    length-replicate target s,
    length-tabulate
        (λ i.
          interp_one fl (value_at fl (linspace01_float32 fl target) i)
            (linspace01_float32 fl (length (s ∷ source))) (s ∷ source))
        0 target,
  )

  module _ (laws : IsIeee fl) where
    zero_not_nan : is_nan zero_f ≡ false
    zero_not_nan = laws.finite_not_nan zero_f laws.zero_finite

    one_not_nan : is_nan one_f ≡ false
    one_not_nan = laws.finite_not_nan one_f laws.one_finite

    interp_one_first :
        (n : ℕ) (fp : List F)
        → 1 < n
        → interp_one fl zero_f (linspace01_float32 fl n) fp ≡ front fl fp
    unfolding interp_one
    interp_one_first n fp h = rw (linspace01_first n h, laws.le_refl zero_f zero_not_nan)

    interp_one_last :
        (n : ℕ) (fp : List F)
        → 1 < n
        → interp_one fl one_f (linspace01_float32 fl n) fp ≡ back fl fp
    unfolding interp_one
    interp_one_last n fp h = rw (
      linspace01_first n h,
      laws.lt_not_le zero_f one_f laws.zero_lt_one,
      length-linspace01 n,
      linspace01_last n h,
      laws.le_refl one_f one_not_nan,
    )

    get_or-replicate : (n i : ℕ) (x : F) → i < n → get_or (replicate n x) i quiet_nan ≡ x
    get_or-replicate zero i x h = absurd (omega arith)
    get_or-replicate (suc n) zero x h = refl
    get_or-replicate (suc n) (suc i) x h = get_or-replicate n i x (omega arith)

    -- If the float order is that of IEEE 754, the first output value is the first source value, and
    -- the last output value, where there are two or more, is the last source value.
    pub resample_ends :
        (s : F) (source : List F) (target : ℕ) (output : List F)
        → 0 < target
        → let result = (resample_linear_normalized fl (s ∷ source) target output).1 in
          (front fl result ≡ s) × (1 < target → back fl result ≡ back fl (s ∷ source))
    unfolding resample_linear_normalized
    resample_ends s [] target output h =
        let some_target : (target == 0) ≡ false = ground arith in
        rw (some_target, length-replicate target s)
          (
            get_or-replicate target 0 s h,
            λ more. get_or-replicate target (target - 1) s (omega arith),
          )
    resample_ends s (x ∷ source) target output h =
        let fp = s ∷ (x ∷ source) in
        let n = length fp in
        let value = λ (i : ℕ).
          interp_one fl (value_at fl (linspace01_float32 fl target) i) (linspace01_float32 fl n)
            fp in
        let some_target : (target == 0) ≡ false = ground arith in
        let many : (suc (suc (length source)) == 1) ≡ false = ground arith in
        elim (Bool-cases (target == 1)) [
          | inl one ↦ rw (some_target, many, one) (refl, λ more. ground arith)
          | inr other ↦
              rw (some_target, many, other, length-tabulate value 0 target)
                (
                  get_or-tabulate value quiet_nan 0 target 0 h
                      ∙ ap (λ z. interp_one fl z (linspace01_float32 fl n) fp)
                          (linspace01_first target (ground arith))
                      ∙ interp_one_first n fp (omega arith),
                  λ more.
                      get_or-tabulate value quiet_nan 0 target (target - 1) (omega arith)
                      ∙ ap value (omega arith)
                      ∙ ap (λ z. interp_one fl z (linspace01_float32 fl n) fp)
                          (linspace01_last target more)
                      ∙ interp_one_last n fp (omega arith),
                )
        ]

    upper_bound-le :
        (xp : List F) (x : F) (i : ℕ)
        → i < length xp
        → lt x (value_at fl xp i) ≡ true
        → upper_bound fl xp x ≤ i
    unfolding upper_bound
    upper_bound-le [] x i h e = absurd (omega arith)
    upper_bound-le (y ∷ xp) x zero h e = rw e (omega arith)
    upper_bound-le (y ∷ xp) x (suc i) h e = elim (Bool-cases (lt x y)) [
      | inl hit ↦ rw hit (omega arith)
      | inr miss ↦ rw miss (omega (arith, upper_bound-le xp x i (omega arith) e))
    ]

    upper_bound_hit :
        (xp : List F) (x : F)
        → upper_bound fl xp x < length xp
        → lt x (value_at fl xp (upper_bound fl xp x)) ≡ true
    unfolding upper_bound
    upper_bound_hit [] x h = absurd (omega arith)
    upper_bound_hit (y ∷ xp) x h = elim (Bool-cases (lt x y)) [
      | inl hit ↦ rw hit hit
      | inr miss ↦ rw miss (upper_bound_hit xp x (omega (arith, rw miss at h)))
    ]

    upper_bound-pos :
        (xp : List F) (x : F) → 0 < length xp → lt x (front fl xp) ≡ false → 0 < upper_bound fl xp x
    unfolding upper_bound
    upper_bound-pos [] x h e = absurd (omega arith)
    upper_bound-pos (y ∷ xp) x h e = rw e (omega arith)

    -- Behind the two guards of `interp_one`, the knots that it reads are inside: if neither the point
    -- nor the end knots are NaN, and the point lies strictly between these, the upper knot's index is
    -- neither 0 nor past the end, and the knot there is above the point.
    upper_bound_inside :
        (xp : List F) (x : F)
        → 0 < length xp
        → is_nan x ≡ false
        → is_nan (front fl xp) ≡ false
        → is_nan (back fl xp) ≡ false
        → le x (front fl xp) ≡ false
        → le (back fl xp) x ≡ false
        → (0 < upper_bound fl xp x)
          × (upper_bound fl xp x < length xp)
          × (lt x (value_at fl xp (upper_bound fl xp x)) ≡ true)
    upper_bound_inside xp x h nx nf nb above below =
        let under_back : lt x (back fl xp) ≡ true =
          ground (arith, laws.le_total (back fl xp) x nb nx) in
        let not_under : lt x (front fl xp) ≡ false =
          ground (arith, laws.le_of_lt x (front fl xp)) in
        let inside = upper_bound-le xp x (length xp - 1) (omega arith) under_back in
        (upper_bound-pos xp x h not_under, omega arith, upper_bound_hit xp x (omega arith))
