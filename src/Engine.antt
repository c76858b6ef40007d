-- ===== src/Engine.antt =====
-- The model file and the NPU context: model/model_loader.cpp and model/rknn_engine.cpp.
-- The Rockchip SDK is not part of the repository: `Sdk` holds what its calls return. What `rknn_init`
-- returns may change from call to call; what a context gives is a function of the context and the input. `none` in place of it is a build without PIPEAI_WITH_RKNN.
pub mod Lifecycle
pub mod Tests
use pipe_ai_rk3588_industria.Prelude.{
  ℕ, zero, suc, ◌+◌, ◌-◌, ◌/◌, Bool, true, false, not, Option, none, some, List, [], ◌∷◌, ◌++◌,
  ◌==◌, if◌then◌else◌,
}
use pipe_ai_rk3588_industria.Floats.{Floats}
use pipe_ai_rk3588_industria.Text.{Bytes, codes}
use pipe_ai_rk3588_industria.Types.{ModelInput}
use pipe_ai_rk3588_industria.Status.{
  Status, is_ok, success, failure, io_error, rknn_init_failed, rknn_query_failed,
  rknn_inference_failed,
}

-- What the file system has under a path: nothing that opens, a file whose read fails, or bytes.
pub data ModelFile : Type 0 where
  missing : ModelFile
  unreadable : ModelFile
  holds : Bytes → ModelFile

-- The status, and `data` after the call.
unfoldable pub load_file : Bytes → ModelFile → Bytes → Status × Bytes
load_file path missing contents = (failure io_error (codes "cannot open model: " ++ path), contents)
load_file path unreadable contents = (failure io_error (codes "failed reading model: " ++ path), [])
load_file path (holds []) contents = (failure io_error (codes "empty model: " ++ path), contents)
load_file path (holds (b ∷ bs)) contents = (success, b ∷ bs)

pub record Engine : Type 0 where
  pub initialized : Bool
  pub model_buffer : Bytes
  pub input_count : ℕ
  pub output_count : ℕ
  -- `ctx_`, where 0 is no context; the build without the SDK has no such member.
  pub ctx : ℕ
  -- Not a member: the contexts that `rknn_init` gave and `rknn_destroy` has not taken back.
  pub live : List ℕ
  -- Not a member: how often `rknn_init` was called.
  pub inits : ℕ

abbrev pub new_engine : Engine
new_engine = record {
  initialized = false;
  model_buffer = [];
  input_count = 0;
  output_count = 0;
  ctx = 0;
  live = [];
  inits = 0;
}

unfoldable pub destroy : ℕ → List ℕ → List ℕ
destroy c [] = []
destroy c (d ∷ ds) = if c == d then ds else d ∷ destroy c ds

module _ (fl : Floats) where
  open fl use {F}

  pub record Sdk : Type 0 where
    -- `none` is any code but RKNN_SUCC. A query tells the numbers of inputs and outputs; each output
    -- has a buffer of floats or a null pointer.
    -- `rknn_init` is told the calls of it before and the contexts that are live.
    pub rknn_init : ℕ → List ℕ → Bytes → Option ℕ
    pub rknn_query : ℕ → Option (ℕ × ℕ)
    pub rknn_inputs_set : ℕ → ModelInput fl → Bool
    pub rknn_run : ℕ → ModelInput fl → Bool
    pub rknn_outputs_get : ℕ → ModelInput fl → ℕ → Option (List (Option (List F)))

  unfoldable pub close : Option Sdk → Engine → Engine
  close none e = record e {
    initialized = false;
    input_count = 0;
    output_count = 0;
    model_buffer = [];
  }
  close (some sdk) e = record e {
    initialized = false;
    input_count = 0;
    output_count = 0;
    model_buffer = [];
    ctx = 0;
    live = if e.ctx == 0 then e.live else destroy e.ctx e.live;
  }

  abbrev pub queried : Sdk → Engine → Option (ℕ × ℕ) → Status × Engine
  queried sdk e none =
      (failure rknn_query_failed (codes "rknn_query input/output failed"), close (some sdk) e)
  queried sdk e (some (i, o)) =
      (success, record e { input_count = i; output_count = o; initialized = true })

  abbrev pub inited : Sdk → Engine → Option ℕ → Status × Engine
  inited sdk e none = (failure rknn_init_failed (codes "rknn_init failed"), e)
  inited sdk e (some c) = queried sdk (record e { ctx = c; live = c ∷ e.live }) (sdk.rknn_query c)

  abbrev pub start : Option Sdk → Engine → Status × Engine
  start none e = (
    failure rknn_init_failed (codes "RKNN runtime disabled. Build with -DPIPEAI_WITH_RKNN=ON"),
    e,
  )
  start (some sdk) e =
      inited sdk (record e { inits = e.inits + 1 }) (sdk.rknn_init e.inits e.live e.model_buffer)

  unfoldable pub load : Option Sdk → Bytes → ModelFile → Engine → Status × Engine
  unfolding load_file close
  load sdk path file e =
      let (status, contents) = load_file path file e.model_buffer in
      let loaded = record e { model_buffer = contents } in
      if is_ok status then start sdk loaded else (status, loaded)

  -- `output.clear()`, and then the first output's buffer.
  abbrev pub first_output : ℕ → List (Option (List F)) → List F
  first_output zero outputs = []
  first_output (suc n) [] = []
  first_output (suc n) (none ∷ outputs) = []
  first_output (suc n) (some buf ∷ outputs) = buf

  abbrev pub fetched : ℕ → List F → Option (List (Option (List F))) → Status × List F
  fetched n output none = (failure rknn_inference_failed (codes "rknn_outputs_get failed"), output)
  fetched n output (some outputs) = (success, first_output n outputs)

  abbrev pub infer_on : Option Sdk → Engine → ModelInput fl → List F → Status × List F
  infer_on none e input output =
      (failure rknn_inference_failed (codes "RKNN runtime disabled"), output)
  infer_on (some sdk) e input output =
      if not (sdk.rknn_inputs_set e.ctx input)
      then (failure rknn_inference_failed (codes "rknn_inputs_set failed"), output)
      else if not (sdk.rknn_run e.ctx input)
      then (failure rknn_inference_failed (codes "rknn_run failed"), output)
      else fetched e.output_count output (sdk.rknn_outputs_get e.ctx input e.output_count)

  -- The status, and `output` after the call.
  unfoldable pub infer : Option Sdk → Engine → ModelInput fl → List F → Status × List F
  infer sdk e input output =
      if not e.initialized
      then (failure rknn_inference_failed (codes "RKNN engine not initialized"), output)
      else infer_on sdk e input output

  pub data Call : Type 0 where
    loads : Bytes → ModelFile → Call
    infers : ModelInput fl → Call
    closes : Call

  unfoldable pub step : Option Sdk → Call → Engine → Engine
  unfolding load close
  step sdk (loads path file) e = (load sdk path file e).1
  step sdk (infers input) e = e
  step sdk closes e = close sdk e

  unfoldable pub run : Option Sdk → List Call → Engine → Engine
  run sdk [] e = e
  run sdk (c ∷ cs) e = run sdk cs (step sdk c e)
