-- ===== src/Latency/Tests.antt =====
-- A percentile of three times, in whole milliseconds (benchmarks/p99_latency.cpp).
use mathlib.Core.List.{Permᴰ, Mem}
use pipe_ai_rk3588_industria.Prelude.{
  ℕ, ◌*◌, ◌/◌, ◌≤◌, ◌<◌, ◌≡◌, refl, false, not, Option, some, List, [], ◌∷◌, arith, ltb,
  if◌then◌else◌,
}
use pipe_ai_rk3588_industria.Latency.Rank.{count, percentile_rank}
use pipe_ai_rk3588_industria.Latency.{last_index, percentile}

abbrev insert : ℕ → List ℕ → List ℕ
insert x [] = x ∷ []
insert x (y ∷ ys) = let rest = insert x ys in if ltb y x then y ∷ rest else x ∷ y ∷ ys

abbrev insertion_sort : List ℕ → List ℕ
insertion_sort [] = []
insertion_sort (x ∷ xs) = insert x (insertion_sort xs)

-- `p` counts hundredths.
abbrev hundredths : ℕ → ℕ → Option ℕ
hundredths p size = some (p * size / 100)

ltb_irrefl : (x : ℕ) → ltb x x ≡ false
ltb_irrefl x = ground arith

-- 7, 3, 5 become 3, 5, 7.
rearranged : Permᴰ (insertion_sort (7 ∷ 3 ∷ 5 ∷ [])) (7 ∷ 3 ∷ 5 ∷ [])
rearranged = Permᴰ.trans (Permᴰ.cons refl (Permᴰ.swap refl refl)) (Permᴰ.swap refl refl)

percentile_rank_example :
    (r : ℕ) × (percentile 0 insertion_sort hundredths (7 ∷ 3 ∷ 5 ∷ []) 95 ≡ some r)
    × Mem r (7 ∷ 3 ∷ 5 ∷ [])
    × (count (λ y. ltb y r) (7 ∷ 3 ∷ 5 ∷ []) ≤ last_index 2 3)
    × (last_index 2 3 < count (λ y. not (ltb r y)) (7 ∷ 3 ∷ 5 ∷ []))
percentile_rank_example =
    percentile_rank ltb ltb_irrefl 0 insertion_sort hundredths 7 (3 ∷ 5 ∷ []) 95 2 rearranged
      ((refl, (refl, tt)), ((refl, tt), (tt, tt))) refl
