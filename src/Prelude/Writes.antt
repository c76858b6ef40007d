-- ===== src/Prelude/Writes.antt =====
-- Loops that write to a range of a list, and what a write does to a list cut in two.
use Prim.Native.Nat.{ℕ, zero, suc, ◌+◌, ◌<◌, ◌≤◌}
use mathlib.Core.Path.{◌≡◌, refl, sym, ap, ◌∙◌}
use mathlib.Core.List.{List, [], ◌∷◌, ◌++◌, append_assoc}
use mathlib.Core.Logic.{◌⊎◌, ◌≢◌}
use mathlib.Core.Option.{some}
use native.Mathlib.Decide.{ℕ_discrete}
use native.Mathlib.Omega.{arith}
use pipe_ai_rk3588_industria.Prelude.Lists.{
  length, set, get_or, drop, length-append, length-set, get_elem?,
}

module _ {ℓ} {A : Type ℓ} where
  abbrev pub tabulate : (ℕ → A) → ℕ → ℕ → List A
  tabulate g from zero = []
  tabulate g from (suc n) = g from ∷ tabulate g (from + 1) n

  pub set-append :
      (pre : List A) (x v : A) (post : List A)
      → set (pre ++ (x ∷ post)) (length pre) v ≡ pre ++ (v ∷ post)
  set-append [] x v post = refl
  set-append (p ∷ pre) x v post = ap (◌∷◌ p) (set-append pre x v post)

  pub get_or-append :
      (pre : List A) (x d : A) (post : List A) → get_or (pre ++ (x ∷ post)) (length pre) d ≡ x
  get_or-append [] x d post = refl
  get_or-append (p ∷ pre) x d post = get_or-append pre x d post

  pub drop-append : (pre post : List A) → drop (length pre) (pre ++ post) ≡ post
  drop-append [] post = refl
  drop-append (p ∷ pre) post = drop-append pre post

  pub append-cons :
      (pre : List A) (x : A) (post : List A) → pre ++ (x ∷ post) ≡ (pre ++ (x ∷ [])) ++ post
  append-cons pre x post = sym (append_assoc pre (x ∷ []) post)

  pub length-tabulate : (g : ℕ → A) (from n : ℕ) → length (tabulate g from n) ≡ n
  length-tabulate g from zero = refl
  length-tabulate g from (suc n) = ap suc (length-tabulate g (from + 1) n)

  -- `for (i = from; i < from + n; ++i) values[i] = g(i)`
  unfoldable pub write_range : (ℕ → A) → ℕ → ℕ → List A → List A
  write_range g from zero vs = vs
  write_range g from (suc n) vs = write_range g (from + 1) n (set vs from (g from))

  pub write_range-append :
      (g : ℕ → A) (gap pre post : List A) (from : ℕ)
      → from ≡ length pre
      → write_range g from (length gap) (pre ++ (gap ++ post))
        ≡ pre ++ (tabulate g from (length gap) ++ post)
  unfolding write_range
  write_range-append g [] pre post from e = refl
  write_range-append g (x ∷ gap) pre post from e =
      ap (write_range g (from + 1) (length gap)) (
        ap (λ i. set (pre ++ (x ∷ (gap ++ post))) i (g from)) e
        ∙ set-append pre x (g from) (gap ++ post)
        ∙ append-cons pre (g from) (gap ++ post))
      ∙ write_range-append g gap (pre ++ (g from ∷ [])) post (from + 1)
          (omega (arith, length-append pre (g from ∷ []), e))
      ∙ append_assoc pre (g from ∷ []) (tabulate g (from + 1) (length gap) ++ post)

  -- A write of the value that stands there changes nothing.
  pub set-get_or : (xs : List A) (i : ℕ) (d : A) → i < length xs → set xs i (get_or xs i d) ≡ xs
  set-get_or [] i d h = refl
  set-get_or (x ∷ xs) zero d h = refl
  set-get_or (x ∷ xs) (suc i) d h = ap (◌∷◌ x) (set-get_or xs i d (omega arith))

  pub length-write_range :
      (g : ℕ → A) (from n : ℕ) (xs : List A) → length (write_range g from n xs) ≡ length xs
  unfolding write_range
  length-write_range g from zero xs = refl
  length-write_range g from (suc n) xs =
      length-write_range g (from + 1) n (set xs from (g from)) ∙ length-set xs from (g from)

  pub get_or-tabulate :
      (g : ℕ → A) (d : A) (from n i : ℕ) → i < n → get_or (tabulate g from n) i d ≡ g (from + i)
  get_or-tabulate g d from zero i h = absurd (omega arith)
  get_or-tabulate g d from (suc n) zero h = ap g (omega arith)
  get_or-tabulate g d from (suc n) (suc i) h =
      get_or-tabulate g d (from + 1) n i (omega arith) ∙ ap g (omega arith)

  pub get_or-set_self :
      (xs : List A) (i : ℕ) (v d : A) → i < length xs → get_or (set xs i v) i d ≡ v
  get_or-set_self [] i v d h = absurd (omega arith)
  get_or-set_self (x ∷ xs) zero v d h = refl
  get_or-set_self (x ∷ xs) (suc i) v d h = get_or-set_self xs i v d (omega arith)

  pub get_or-set_ne :
      (xs : List A) (i j : ℕ) (v d : A) → i ≢ j → get_or (set xs i v) j d ≡ get_or xs j d
  get_or-set_ne [] i j v d h = refl
  get_or-set_ne (x ∷ xs) zero zero v d h = absurd (h refl)
  get_or-set_ne (x ∷ xs) zero (suc j) v d h = refl
  get_or-set_ne (x ∷ xs) (suc i) zero v d h = refl
  get_or-set_ne (x ∷ xs) (suc i) (suc j) v d h = get_or-set_ne xs i j v d (omega arith)

  -- What a loop of writes leaves outside its range, and what it writes inside.
  pub write_range_outside :
      (g : ℕ → A) (d : A) (from n : ℕ) (xs : List A) (i : ℕ)
      → (i < from) ⊎ (from + n ≤ i)
      → get_or (write_range g from n xs) i d ≡ get_or xs i d
  unfolding write_range
  write_range_outside g d from zero xs i h = refl
  write_range_outside g d from (suc n) xs i h =
      write_range_outside g d (from + 1) n (set xs from (g from)) i (omega arith)
      ∙ get_or-set_ne xs from i (g from) d (omega arith)

  pub write_range_inside :
      (g : ℕ → A) (d : A) (from n : ℕ) (xs : List A) (i : ℕ)
      → from ≤ i
      → i < from + n
      → i < length xs
      → get_or (write_range g from n xs) i d ≡ g i
  unfolding write_range
  write_range_inside g d from zero xs i lo hi h = absurd (omega arith)
  write_range_inside g d from (suc n) xs i lo hi h = elim (ℕ_discrete from i) [
    | yes e ↦
        write_range_outside g d (from + 1) n (set xs from (g from)) i (omega arith)
        ∙ ap (λ k. get_or (set xs k (g k)) i d) e
        ∙ get_or-set_self xs i (g i) d h
    | no ne ↦
        write_range_inside g d (from + 1) n (set xs from (g from)) i (omega arith) (omega arith)
          (omega (arith, length-set xs from (g from)))
  ]

  pub get_or-get_elem? :
      (xs : List A) (i : ℕ) (d : A) → i < length xs → get_elem? xs i ≡ some (get_or xs i d)
  get_or-get_elem? [] i d h = absurd (omega arith)
  get_or-get_elem? (x ∷ xs) zero d h = refl
  get_or-get_elem? (x ∷ xs) (suc i) d h = get_or-get_elem? xs i d (omega arith)

  pub get_or-append_left :
      (xs ys : List A) (i : ℕ) (d : A) → i < length xs → get_or (xs ++ ys) i d ≡ get_or xs i d
  get_or-append_left [] ys i d h = absurd (omega arith)
  get_or-append_left (x ∷ xs) ys zero d h = refl
  get_or-append_left (x ∷ xs) ys (suc i) d h = get_or-append_left xs ys i d (omega arith)
