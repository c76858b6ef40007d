-- ===== src/Engine/Tests.antt =====
-- The engine's theorems with an SDK that always answers (model/rknn_engine.cpp).
use pipe_ai_rk3588_industria.Prelude.{
  ℕ, suc, ◌≤◌, ◌≡◌, refl, inl, inr, true, false, none, some, List, [], ◌∷◌, arith, ltb,
  if◌then◌else◌, replicate,
}
use mathlib.Core.Option.{some-injective}
use pipe_ai_rk3588_industria.Floats.Fixed.{fixed}
use pipe_ai_rk3588_industria.Types.{cleared_input}
use pipe_ai_rk3588_industria.Engine.{
  new_engine, holds, Sdk, Call, loads, infers, load, close, run, step,
}
use pipe_ai_rk3588_industria.Engine.Lifecycle.{Has, run_ready_live, load_twice_leaks, IsFresh}

abbrev greatest : List ℕ → ℕ
greatest [] = 0
greatest (c ∷ cs) = let rest = greatest cs in if ltb rest c then c else rest

Has-greatest : (c : ℕ) (cs : List ℕ) → Has c cs → c ≤ greatest cs
Has-greatest c [] h = absurd h
Has-greatest c (d ∷ cs) (inl e) = ground arith
Has-greatest c (d ∷ cs) (inr h) = ground (arith, Has-greatest c cs h)

abbrev sdk : Sdk fixed
sdk = record {
  rknn_init = λ k live contents. some (suc (greatest live));
  rknn_query = λ c. some (1, 1);
  rknn_inputs_set = λ c input. true;
  rknn_run = λ c input. true;
  rknn_outputs_get = λ c input n. some (some (replicate 5 none) ∷ []);
}

abbrev calls : List (Call fixed)
calls = loads [] (holds (1 ∷ 2 ∷ [])) ∷ infers (cleared_input fixed) ∷ []

run_ready_live_example :
    let e = run fixed (some sdk) calls new_engine in
    (e.initialized ≡ true → Has e.ctx e.live)
    × ((close fixed (some sdk) e).initialized ≡ false)
    × ((close fixed (some sdk) e).ctx ≡ 0)
run_ready_live_example = run_ready_live fixed sdk calls

sdk-IsFresh : IsFresh fixed sdk
sdk-IsFresh k live contents c e h = omega (arith, Has-greatest c live h, some-injective _ _ e)

load_twice_leaks_example :
    let e = run fixed (some sdk) calls new_engine in
    Has e.ctx (close fixed (some sdk) (load fixed (some sdk) [] (holds (5 ∷ [])) e).1).live
unfolding load run step
load_twice_leaks_example =
    load_twice_leaks fixed sdk calls [] (holds (5 ∷ [])) sdk-IsFresh refl refl
