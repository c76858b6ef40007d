-- ===== src/Tensor/Tests.antt =====
-- A tensor that is reshaped (tensor/tensor.cpp).
use pipe_ai_rk3588_industria.Prelude.{ℕ, ◌≡◌, Bool, [], ◌∷◌, map, arith, ltb}
use pipe_ai_rk3588_industria.Tensor.Size.{IsRefilled, reshape_bytes}
use pipe_ai_rk3588_industria.Tensor.{Tensor, int8, elements, reshape}
use pipe_ai_rk3588_industria.Prelude.Int.{pos}

abbrev old : Tensor
old = record { shape = pos 3 ∷ []; type = int8; buffer = 1 ∷ 2 ∷ 3 ∷ [] }

abbrev gives : ℕ → Bool
gives n = ltb n 100

reshape_bytes_example :
    let (ok, t) = reshape gives (map pos (2 ∷ 3 ∷ [])) old in
    (elements t ≡ 6) × (t.type ≡ int8) × IsRefilled 6 old (ok, t)
reshape_bytes_example = reshape_bytes gives old 2 (3 ∷ []) (omega arith)
