-- ===== src/Repair/Split.antt =====
-- A channel splits at its first valid reading.
use pipe_ai_rk3588_industria.Prelude.{
  ◌≡◌, refl, ap, inl, inr, true, false, List, [], ◌∷◌, ◌++◌, Bool-cases, length,
}
use pipe_ai_rk3588_industria.Floats.{Floats}
use pipe_ai_rk3588_industria.Repair.{skip_nan}

module _ (fl : Floats) where
  open fl use {F, is_nan}

  -- A list splits at its first valid entry.
  abbrev pub AllNan : List F → Type 0
  AllNan [] = Unit {0}
  AllNan (x ∷ xs) = (is_nan x ≡ true) × AllNan xs

  pub data Split : List F → Type 0 where
    missing : {gap : List F} → AllNan gap → skip_nan fl gap ≡ length gap → Split gap
    reaches :
        (gap : List F) (y : F) (rest : List F) {vs : List F}
        → vs ≡ gap ++ (y ∷ rest)
        → AllNan gap
        → is_nan y ≡ false
        → skip_nan fl vs ≡ length gap
        → Split vs

  pub split : (vs : List F) → Split vs
  unfolding skip_nan
  split [] = missing tt refl
  split (v ∷ vs) = elim (Bool-cases (is_nan v)) [
    | inr good ↦ reaches [] v vs refl tt good (rw good)
    | inl bad ↦ elim (split vs) [
      | missing h e ↦ missing (bad, h) (rw (bad, e))
      | reaches gap y rest e h good n ↦
          reaches (v ∷ gap) y rest (ap (◌∷◌ v) e) (bad, h) good (rw (bad, n))
    ]
  ]
