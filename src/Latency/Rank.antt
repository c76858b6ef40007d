-- ===== src/Latency/Rank.antt =====
-- The rank of the percentile among the measured times (benchmarks/p99_latency.cpp).
use mathlib.Core.List.{Permᴰ, Mem}
use mathlib.Core.List.{Permᴰ, Mem}
use mathlib.Core.List.{Permᴰ, Mem}
use mathlib.Core.Path.{subst}
use mathlib.Core.List.{Permᴰ, Memᴰ, Mem}
use mathlib.Core.List.Permᴰ
use pipe_ai_rk3588_industria.Prelude.{
  ℕ, zero, suc, ◌≤◌, ◌<◌, ◌≡◌, refl, sym, ap, ◌∙◌, inl, inr, Bool, true, false, not, Option, some,
  List, [], ◌∷◌, arith, if◌then◌else◌, Bool-cases, length, get_or, All,
}
use pipe_ai_rk3588_industria.Latency.{last_index, element, percentile}

-- How many elements pass a test.
abbrev pub count {ℓ} : {A : Type ℓ} → (A → Bool) → List A → ℕ
count q [] = 0
count q (x ∷ xs) = let rest = count q xs in if q x then suc rest else rest

counted : Bool → ℕ → ℕ
counted b n = if b then suc n else n

counted-swap : (a b : Bool) (n : ℕ) → counted a (counted b n) ≡ counted b (counted a n)
unfolding counted
counted-swap true true n = refl
counted-swap true false n = refl
counted-swap false true n = refl
counted-swap false false n = refl

count-Permᴰ {ℓ} :
    {A : Type ℓ} (q : A → Bool) {xs ys : List A} → Permᴰ xs ys → count q xs ≡ count q ys
unfolding counted
count-Permᴰ q Permᴰ.nil = refl
count-Permᴰ q (Permᴰ.cons {l₂ = l₂} e p) = rw (e, count-Permᴰ q p)
count-Permᴰ q (Permᴰ.swap {l = l} e f) = rw (e, f) (counted-swap _ _ (count q l))
count-Permᴰ q (Permᴰ.trans p r) = count-Permᴰ q p ∙ count-Permᴰ q r

length-Permᴰ {ℓ} : {A : Type ℓ} {xs ys : List A} → Permᴰ xs ys → length xs ≡ length ys
length-Permᴰ Permᴰ.nil = refl
length-Permᴰ (Permᴰ.cons e p) = ap suc (length-Permᴰ p)
length-Permᴰ (Permᴰ.swap e f) = refl
length-Permᴰ (Permᴰ.trans p q) = length-Permᴰ p ∙ length-Permᴰ q

get_or-Memᴰ {ℓ} :
    {A : Type ℓ} (d : A) (xs : List A) (k : ℕ) → k < length xs → Memᴰ (get_or xs k d) xs
get_or-Memᴰ d [] k h = ground arith
get_or-Memᴰ d (x ∷ xs) zero h = Memᴰ.head refl
get_or-Memᴰ d (x ∷ xs) (suc k) h = Memᴰ.tail (get_or-Memᴰ d xs k (omega (arith, h)))

last_index-inside : (k size : ℕ) → last_index k (suc size) < suc size
last_index-inside k size = ground arith

module _ {ℓ} {D : Type ℓ} (lt : D → D → Bool) where
  -- In order: none is less than one in front of it.
  abbrev pub IsSorted : List D → Type ℓ
  IsSorted [] = Unit
  IsSorted (x ∷ xs) = All (λ y. lt y x ≡ false) xs × IsSorted xs

  none_less : (x : D) (xs : List D) → All (λ y. lt y x ≡ false) xs → count (λ y. lt y x) xs ≡ 0
  none_less x [] h = refl
  none_less x (y ∷ xs) (e, h) = rw (e, none_less x xs h)

  All-get_or :
      (x d : D) (xs : List D) (k : ℕ)
      → All (λ y. lt y x ≡ false) xs
      → k < length xs
      → lt (get_or xs k d) x ≡ false
  All-get_or x d [] k h inside = ground arith
  All-get_or x d (y ∷ xs) zero (e, h) inside = e
  All-get_or x d (y ∷ xs) (suc k) (e, h) inside = All-get_or x d xs k h (omega (arith, inside))

  module _ (lt_irrefl : (x : D) → lt x x ≡ false) where
    few_less :
        (d : D) (xs : List D) (k : ℕ)
        → IsSorted xs
        → k < length xs
        → count (λ y. lt y (get_or xs k d)) xs ≤ k
    few_less d [] k h inside = ground arith
    few_less d (x ∷ xs) zero (least, h) inside =
        rw (lt_irrefl x, none_less x xs least) (omega arith)
    few_less d (x ∷ xs) (suc k) (least, h) inside =
        let more = few_less d xs k h (omega (arith, inside)) in
        elim (Bool-cases (lt x (get_or xs k d))) [
          | inl e ↦ rw e (omega (arith, more))
          | inr e ↦ rw e (omega (arith, more))
        ]

    many_not_greater :
        (d : D) (xs : List D) (k : ℕ)
        → IsSorted xs
        → k < length xs
        → k < count (λ y. not (lt (get_or xs k d) y)) xs
    many_not_greater d [] k h inside = ground arith
    many_not_greater d (x ∷ xs) zero (least, h) inside = rw (lt_irrefl x) (omega arith)
    many_not_greater d (x ∷ xs) (suc k) (least, h) inside =
        let more = many_not_greater d xs k h (omega (arith, inside)) in
        rw (All-get_or x d xs k least (omega (arith, inside))) (omega (arith, more))

    module _ (zero_d : D) (sort : List D → List D) (scaled : D → ℕ → Option ℕ) where
      -- Where `operator<` is irreflexive, `std::sort` gives the times, in order, and the index is defined:
      -- the percentile of at least one time is one of the times, and its rank is the index, or the
      -- last place when the index is behind it: at most that many times are less, and more than
      -- that many are not greater.
      pub percentile_rank :
          (x : D) (v : List D) (p : D) (k : ℕ)
          → Permᴰ (sort (x ∷ v)) (x ∷ v)
          → IsSorted (sort (x ∷ v))
          → scaled p (length (x ∷ v)) ≡ some k
          → (r : D) × (percentile zero_d sort scaled (x ∷ v) p ≡ some r)
            × Mem r (x ∷ v)
            × (count (λ y. lt y r) (x ∷ v) ≤ last_index k (length (x ∷ v)))
            × (last_index k (length (x ∷ v)) < count (λ y. not (lt r y)) (x ∷ v))
      unfolding percentile
      percentile_rank x v p k perm sorted e =
          let size = length-Permᴰ perm in
          let inside = last_index-inside k (length v) in
          let there = subst (λ n. last_index k (suc (length v)) < n) (sym size) inside in
          let r = get_or (sort (x ∷ v)) (last_index k (suc (length v))) zero_d in
          (
            r,
            ap (element zero_d sort scaled (sort (x ∷ v))) (ap (scaled p) size ∙ e)
                ∙ ap (λ n. some (get_or (sort (x ∷ v)) (last_index k n) zero_d)) size,
            Permᴰ.mem perm ∣ get_or-Memᴰ zero_d (sort (x ∷ v)) _ there ∣₁,
            subst (λ n. n ≤ last_index k (suc (length v))) (count-Permᴰ (λ y. lt y r) perm)
                (few_less zero_d (sort (x ∷ v)) _ sorted there),
            subst (λ n. last_index k (suc (length v)) < n) (count-Permᴰ (λ y. not (lt r y)) perm)
                (many_not_greater zero_d (sort (x ∷ v)) _ sorted there),
          )
