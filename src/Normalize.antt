-- ===== src/Normalize.antt =====
-- Normalization, four values at a time and one at a time: optimization/neon/neon_normalize.cpp and
-- preprocess/normalize_dispatch.cpp. An array is what is left of it, `n` the number of rounds left,
-- and `none` an access past an array's end.
pub mod Lanes
pub mod Tests
use pipe_ai_rk3588_industria.Prelude.{
  ℕ, zero, suc, ◌+◌, ◌-◌, Option, none, some, List, ◌∷◌, ◌++◌, ltb, leb, if◌then◌else◌, drop, bind,
}
use pipe_ai_rk3588_industria.Prelude.Int.{ℤ, pos, negsuc}
use pipe_ai_rk3588_industria.Floats.{Floats}
use pipe_ai_rk3588_industria.Quant.{convert, rounds}

-- The intrinsics of arm_neon.h on `float32x4_t`.
pub record Neon (F : Type 0) : Type 1 where
  pub V : Type 0
  pub vdupq_n : F → V
  pub vld1q : F → F → F → F → V
  pub vsubq : V → V → V
  pub vmulq : V → V → V
  pub vst1q : V → List F

module _ (fl : Floats) where
  open fl use {F, sub, mul}

  -- `for(size_t i=0;i<n;i++) out[i]=(in[i]-mean)*inv_std;`
  unfoldable pub scalar_loop : F → F → List F → ℕ → List F → Option (List F)
  scalar_loop mean inv_std input n out = convert (λ x. some (mul (sub x mean) inv_std)) input n out

  module _ (neon : Neon F) where
    open neon use {V, vdupq_n, vld1q, vsubq, vmulq, vst1q}

    abbrev pub load_four : List F → Option V
    load_four (a ∷ b ∷ c ∷ d ∷ xs) = some (vld1q a b c d)
    load_four _ = none

    -- The four values over the first four of the array.
    abbrev pub store_four : V → List F → Option (List F × List F)
    store_four v (a ∷ b ∷ c ∷ d ∷ out) = some (vst1q v, out)
    store_four v _ = none

    -- One round of the loop over `i`, with what the later rounds write given.
    unfoldable pub block : F → F → List F → List F → (List F → Option (List F)) → Option (List F)
    block mean inv_std input out next = bind (load_four input) (λ x.
        bind (store_four (vmulq (vsubq x (vdupq_n mean)) (vdupq_n inv_std)) out)
          (λ (stored, rest). bind (next rest) (λ written. some (stored ++ written))))

    -- The vector loop and the scalar loop behind it; the fuel is the number of rounds of the latter
    -- alone.
    unfoldable pub neon_loop : ℕ → F → F → List F → ℕ → List F → Option (List F)
    neon_loop zero mean inv_std input n out = scalar_loop mean inv_std input n out
    neon_loop (suc fuel) mean inv_std input n out =
        let round =
          block mean inv_std input out (neon_loop fuel mean inv_std (drop 4 input) (n - 4)) in
        if leb 4 n then round else scalar_loop mean inv_std input n out

    unfoldable pub neon_normalize : List F → List F → ℕ → F → F → Option (List F)
    neon_normalize input out n mean inv_std = neon_loop n mean inv_std input n out

    -- With its own test, `i+3<n`, on an `int`.
    unfoldable pub dispatch_loop : ℕ → F → F → List F → ℕ → List F → Option (List F)
    dispatch_loop zero mean inv_std input n out = scalar_loop mean inv_std input n out
    dispatch_loop (suc fuel) mean inv_std input n out =
        let round =
          block mean inv_std input out (dispatch_loop fuel mean inv_std (drop 4 input) (n - 4)) in
        if ltb 3 n then round else scalar_loop mean inv_std input n out

    unfoldable pub normalize_dispatch : List F → List F → ℤ → F → F → Option (List F)
    normalize_dispatch input out n mean inv_std =
        dispatch_loop (rounds n) mean inv_std input (rounds n) out
