-- ===== src/Engine/Lifecycle.antt =====
-- When the engine is ready, and what becomes of its contexts (model/rknn_engine.cpp).
use mathlib.Core.Path.{subst}
use pipe_ai_rk3588_industria.Text.{Bytes}
use pipe_ai_rk3588_industria.Prelude.{
  inr, inl, sym, Option-cases, true, ℕ, ◌≡◌, refl, ◌≢◌, ◌⊎◌, false, none, some, List, [], ◌∷◌,
  arith,
}
use pipe_ai_rk3588_industria.Floats.{Floats}
use pipe_ai_rk3588_industria.Types.{ModelInput}
use pipe_ai_rk3588_industria.Status.{is_ok, rknn_inference_failed}
use pipe_ai_rk3588_industria.Engine.{
  ModelFile, close, load, Engine, new_engine, missing, unreadable, holds, Sdk, Call, loads, infers,
  closes, infer, step, run, destroy,
}

abbrev pub Has : ℕ → List ℕ → Type 0
Has c [] = ⊥
Has c (d ∷ ds) = (c ≡ d) ⊎ Has c ds

destroy-Has : (c d : ℕ) (ds : List ℕ) → c ≢ d → Has c ds → Has c (destroy d ds)
unfolding destroy
destroy-Has c d [] ne h = h
destroy-Has c d (x ∷ ds) ne h = ground (arith, destroy-Has c d ds ne)

module _ (fl : Floats) where
  step_off :
      (c : Call fl) (e : Engine) → e.initialized ≡ false → (step fl none c e).initialized ≡ false
  unfolding step
  step_off (loads path missing) e h = h
  step_off (loads path unreadable) e h = h
  step_off (loads path (holds [])) e h = h
  step_off (loads path (holds (b ∷ bs))) e h = h
  step_off (infers input) e h = h
  step_off closes e h = refl

  run_off :
      (cs : List (Call fl)) (e : Engine)
      → e.initialized ≡ false
      → (run fl none cs e).initialized ≡ false
  unfolding run
  run_off [] e h = h
  run_off (c ∷ cs) e h = run_off cs (step fl none c e) (step_off c e h)

  -- In a build without the SDK no sequence of calls makes the engine ready: after any of them an
  -- inference fails and leaves its output alone.
  infer_off :
      (cs : List (Call fl)) (input : ModelInput fl) (output : List fl.F)
      → let (status, result) = infer fl none (run fl none cs new_engine) input output in
        (status.code ≡ rknn_inference_failed) × (result ≡ output)
  unfolding infer
  infer_off cs input output = rw (run_off cs new_engine refl) (refl, refl)

  module _ (sdk : Sdk fl) where
    -- A ready engine has a context that is live.
    pub record Inv (e : Engine) : Type 0 where
      pub ready_live : (e.initialized ≡ false) ⊎ Has e.ctx e.live
      pub ctx_live : (e.ctx ≡ 0) ⊎ Has e.ctx e.live

    step-Inv : (c : Call fl) (e : Engine) → Inv e → Inv (step fl (some sdk) c e)
    unfolding step
    step-Inv (loads path missing) e h = ground arith
    step-Inv (loads path unreadable) e h = ground arith
    step-Inv (loads path (holds [])) e h = ground arith
    step-Inv (loads path (holds (b ∷ bs))) e h = ground arith
    step-Inv (infers input) e h = h
    step-Inv closes e h = ground arith

    run-Inv : (cs : List (Call fl)) (e : Engine) → Inv e → Inv (run fl (some sdk) cs e)
    unfolding run
    run-Inv [] e h = h
    run-Inv (c ∷ cs) e h = run-Inv cs (step fl (some sdk) c e) (step-Inv c e h)

    -- After any sequence of loads, inferences and closes on a new engine: while it says that it is
    -- ready, its context is one that the SDK gave and has not been handed back, and a `close` leaves
    -- it neither ready nor with a context.
    pub run_ready_live :
        (cs : List (Call fl))
        → let e = run fl (some sdk) cs new_engine in
          (e.initialized ≡ true → Has e.ctx e.live)
          × ((close fl (some sdk) e).initialized ≡ false)
          × ((close fl (some sdk) e).ctx ≡ 0)
    unfolding close
    run_ready_live cs =
        let inv = run-Inv cs new_engine (record { ready_live = inl refl; ctx_live = inl refl }) in
        (λ ready. ground (arith, inv.ready_live), refl, refl)

    refused :
        (path : Bytes) (file : ModelFile) (e : Engine)
        → ((b : ℕ) (bs : Bytes) → file ≢ holds (b ∷ bs))
        → is_ok (load fl (some sdk) path file e).0 ≢ true
    unfolding load
    refused path missing e no_bytes h = cc
    refused path unreadable e no_bytes h = cc
    refused path (holds []) e no_bytes h = cc
    refused path (holds (b ∷ bs)) e no_bytes h = no_bytes b bs refl

    init_refused :
        (path : Bytes) (b : ℕ) (bs : Bytes) (e : Engine)
        → sdk.rknn_init e.inits e.live (b ∷ bs) ≡ none
        → is_ok (load fl (some sdk) path (holds (b ∷ bs)) e).0 ≢ true
    unfolding load
    init_refused path b bs e h = ground arith

    load_holds_leaks :
        (path : Bytes) (b : ℕ) (bs : Bytes) (e : Engine) (c' : ℕ)
        → Has e.ctx e.live
        → sdk.rknn_init e.inits e.live (b ∷ bs) ≡ some c'
        → c' ≢ e.ctx
        → is_ok (load fl (some sdk) path (holds (b ∷ bs)) e).0 ≡ true
        → Has e.ctx (close fl (some sdk) (load fl (some sdk) path (holds (b ∷ bs)) e).1).live
    unfolding load close
    load_holds_leaks path b bs e c' held given new ok_load =
        ground (arith, destroy-Has e.ctx c' (c' ∷ e.live) (λ same. new (sym same)) (inr held))

    -- `rknn_init` does not give a context that is live.
    abbrev pub IsFresh : Type 0
    IsFresh =
        (k : ℕ) (live : List ℕ) (contents : Bytes) (c : ℕ)
        → sdk.rknn_init k live contents ≡ some c
        → Has c live
        → ⊥

    load_leaks :
        (path : Bytes) (file : ModelFile) (e : Engine)
        → IsFresh
        → Has e.ctx e.live
        → is_ok (load fl (some sdk) path file e).0 ≡ true
        → Has e.ctx (close fl (some sdk) (load fl (some sdk) path file e).1).live
    load_leaks path missing e fresh held done = absurd (refused path missing e (λ b bs. cc) done)
    load_leaks path unreadable e fresh held done =
        absurd (refused path unreadable e (λ b bs. cc) done)
    load_leaks path (holds []) e fresh held done =
        absurd (refused path (holds []) e (λ b bs. cc) done)
    load_leaks path (holds (b ∷ bs)) e fresh held done =
        elim (Option-cases (sdk.rknn_init e.inits e.live (b ∷ bs))) [
          | inl none_given ↦ absurd (init_refused path b bs e none_given done)
          | inr (c', given) ↦
              load_holds_leaks path b bs e c' held given
                (λ same.
                  fresh e.inits e.live (b ∷ bs) c' given
                    (subst (λ c. Has c e.live) (sym same) held))
                done
        ]

    -- If `rknn_init` never gives a context that is live: after any sequence of loads, inferences and
    -- closes on a new engine, a load that succeeds while the engine is ready drops the engine's context
    -- without handing it back, which is still live when the engine has been closed.
    pub load_twice_leaks :
        (cs : List (Call fl)) (path : Bytes) (file : ModelFile)
        → IsFresh
        → (run fl (some sdk) cs new_engine).initialized ≡ true
        → is_ok (load fl (some sdk) path file (run fl (some sdk) cs new_engine)).0 ≡ true
        → let e = run fl (some sdk) cs new_engine in
          Has e.ctx (close fl (some sdk) (load fl (some sdk) path file e).1).live
    load_twice_leaks cs path file fresh ready done =
        load_leaks path file (run fl (some sdk) cs new_engine) fresh ((run_ready_live cs).0 ready)
          done
