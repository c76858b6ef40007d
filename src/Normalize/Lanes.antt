-- ===== src/Normalize/Lanes.antt =====
-- The vector loops against the scalar loop.
use pipe_ai_rk3588_industria.Prelude.{
  ℕ, zero, suc, ◌-◌, ◌≡◌, refl, ◌∙◌, inl, inr, true, Option, some, List, [], ◌∷◌, ◌++◌, arith, ltb,
  leb, Option-cases, drop, bind, bind_congr,
}
use pipe_ai_rk3588_industria.Prelude.Int.{pos}
use pipe_ai_rk3588_industria.Quant.{convert}
use pipe_ai_rk3588_industria.Floats.{Floats}
use pipe_ai_rk3588_industria.Normalize.{
  Neon, scalar_loop, block, load_four, store_four, neon_loop, neon_normalize, dispatch_loop,
  normalize_dispatch,
}

-- What the intrinsics are documented to do: a load_four and a store_four move four values, and the arithmetic
-- is done lane by lane.
pub record IsLanewise (fl : Floats) (neon : Neon fl.F) : Type 0 where
  pub stores : (a b c d : fl.F) → neon.vst1q (neon.vld1q a b c d) ≡ a ∷ b ∷ c ∷ d ∷ []
  pub subtracts :
      (a b c d m : fl.F)
      → neon.vsubq (neon.vld1q a b c d) (neon.vdupq_n m)
        ≡ neon.vld1q (fl.sub a m) (fl.sub b m) (fl.sub c m) (fl.sub d m)
  pub multiplies :
      (a b c d s : fl.F)
      → neon.vmulq (neon.vld1q a b c d) (neon.vdupq_n s)
        ≡ neon.vld1q (fl.mul a s) (fl.mul b s) (fl.mul c s) (fl.mul d s)

four_off : (n : ℕ) → suc (suc (suc (suc n))) - 4 ≡ n
four_off n = omega arith

leb_four : (n : ℕ) → leb 4 (suc (suc (suc (suc n)))) ≡ true
leb_four n = ground arith

ltb_three : (n : ℕ) → ltb 3 (suc (suc (suc (suc n)))) ≡ true
ltb_three n = ground arith

module _ (fl : Floats) (neon : Neon fl.F) (laws : IsLanewise fl neon) where
  open fl use {F}

  -- Four rounds of the scalar loop are one block.
  block_four :
      (mean inv_std : F) (input : List F) (n : ℕ) (out : List F)
      → block fl neon mean inv_std input out (scalar_loop fl mean inv_std (drop 4 input) n)
        ≡ scalar_loop fl mean inv_std input (suc (suc (suc (suc n)))) out
  unfolding block scalar_loop convert
  block_four mean inv_std (a ∷ b ∷ c ∷ d ∷ input) n (e ∷ f ∷ g ∷ h ∷ out) =
      elim (Option-cases (scalar_loop fl mean inv_std input n out)) [
        | inl q ↦ rw (laws.subtracts a b c d mean, q)
        | inr (rest, q) ↦ rw (laws.subtracts a b c d mean, laws.multiplies, laws.stores, q)
      ]
  block_four mean inv_std _ n _ = ground arith

  block_congr :
      (mean inv_std : F) (input out : List F) (f g : List F → Option (List F))
      → ((rest : List F) → f rest ≡ g rest)
      → block fl neon mean inv_std input out f ≡ block fl neon mean inv_std input out g
  unfolding block
  block_congr mean inv_std input out f g h =
      bind_congr (load_four fl neon input) _ _
        (λ x. bind_congr (store_four fl neon _ out) _ _ (λ p. bind_congr_at p))
    where
      bind_congr_at :
          (p : List F × List F)
          → bind (f p.1) (λ written. some (p.0 ++ written))
            ≡ bind (g p.1) (λ written. some (p.0 ++ written))
      bind_congr_at p = rw (h p.1)

  neon_loop_scalar :
      (fuel : ℕ) (mean inv_std : F) (input : List F) (n : ℕ) (out : List F)
      → neon_loop fl neon fuel mean inv_std input n out ≡ scalar_loop fl mean inv_std input n out
  unfolding neon_loop
  neon_loop_scalar zero mean inv_std input n out = refl
  neon_loop_scalar (suc fuel) mean inv_std input (suc (suc (suc (suc n)))) out =
      rw (leb_four n, four_off n)
        (block_congr mean inv_std input out _ _
            (neon_loop_scalar fuel mean inv_std (drop 4 input) n)
          ∙ block_four mean inv_std input n out)
  neon_loop_scalar (suc fuel) mean inv_std input _ out = refl

  dispatch_loop_scalar :
      (fuel : ℕ) (mean inv_std : F) (input : List F) (n : ℕ) (out : List F)
      → dispatch_loop fl neon fuel mean inv_std input n out
        ≡ scalar_loop fl mean inv_std input n out
  unfolding dispatch_loop
  dispatch_loop_scalar zero mean inv_std input n out = refl
  dispatch_loop_scalar (suc fuel) mean inv_std input (suc (suc (suc (suc n)))) out =
      rw (ltb_three n, four_off n)
        (block_congr mean inv_std input out _ _
            (dispatch_loop_scalar fuel mean inv_std (drop 4 input) n)
          ∙ block_four mean inv_std input n out)
  dispatch_loop_scalar (suc fuel) mean inv_std input _ out = refl

  -- If the intrinsics work lane by lane, `neon_normalize` and `normalize_dispatch` built for NEON
  -- do what the loop over single values does, for arrays and sizes of all lengths, an access
  -- past an array's end included.
  pub normalize_agrees :
      (input out : List F) (n : ℕ) (mean inv_std : F)
      → (neon_normalize fl neon input out n mean inv_std ≡ scalar_loop fl mean inv_std input n out)
        × (normalize_dispatch fl neon input out (pos n) mean inv_std
            ≡ scalar_loop fl mean inv_std input n out)
  unfolding neon_normalize normalize_dispatch
  normalize_agrees input out n mean inv_std =
      (neon_loop_scalar n mean inv_std input n out, dispatch_loop_scalar n mean inv_std input n out)
