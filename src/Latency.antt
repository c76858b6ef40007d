-- ===== src/Latency.antt =====
-- The percentile of measured times: benchmarks/p99_latency.cpp, and the same function in
-- benchmarks/latency_report.hpp. `std::sort` is a parameter, and so is the index
-- `static_cast<size_t>(p * v.size())`, with `none` where that conversion is undefined.
pub mod Rank
pub mod Tests
use pipe_ai_rk3588_industria.Prelude.{
  ℕ, ◌-◌, Option, none, some, List, [], ◌∷◌, leb, if◌then◌else◌, length, get_or,
}

-- `if (idx >= v.size()) idx = v.size() - 1;`
abbrev pub last_index : ℕ → ℕ → ℕ
last_index idx size = if leb size idx then size - 1 else idx

module _ {ℓ} {D : Type ℓ} (zero_d : D) (sort : List D → List D) (scaled : D → ℕ → Option ℕ) where
  abbrev pub element : List D → Option ℕ → Option D
  element v none = none
  element v (some idx) = some (get_or v (last_index idx (length v)) zero_d)

  unfoldable pub percentile : List D → D → Option D
  percentile [] p = some zero_d
  percentile (x ∷ v) p = let sorted = sort (x ∷ v) in element sorted (scaled p (length sorted))
