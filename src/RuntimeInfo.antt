-- ===== src/RuntimeInfo.antt =====
-- What a model says of its tensors: model/rknn_runtime/rknn_engine_runtime.cpp. The answers of
-- `rknn_query` are a parameter, `none` for an error; without the SDK there are none at all.
pub mod Twice
pub mod Tests
use pipe_ai_rk3588_industria.Prelude.{
  ℕ, ◌+◌, Bool, true, false, Option, none, some, List, [], ◌∷◌, ◌++◌, map,
}
use pipe_ai_rk3588_industria.Prelude.Int.{ℤ, pos}
use pipe_ai_rk3588_industria.Floats.{Floats}
use pipe_ai_rk3588_industria.Quant.{signed, resize}

-- A number that is stored in an `int`.
abbrev pub as_int : ℕ → ℤ
as_int n = signed 32 (pos n)

module _ (fl : Floats) where
  pub record RknnRuntimeTensorInfo : Type 0 where
    pub index : ℤ
    pub dims : List ℤ
    pub type : ℤ
    pub scale : fl.F
    pub zero_point : ℤ

  abbrev pub blank_info : RknnRuntimeTensorInfo
  blank_info = record {
    index = pos 0;
    dims = [];
    type = pos 0;
    scale = fl.one_f;
    zero_point = pos 0;
  }

  pub record RknnRuntimeInfo : Type 0 where
    pub inputs : List RknnRuntimeTensorInfo
    pub outputs : List RknnRuntimeTensorInfo

  abbrev pub new_info : RknnRuntimeInfo
  new_info = record { inputs = []; outputs = [] }

  -- The fields of `rknn_tensor_attr` that are read: the first `n_dims` of its dimensions.
  pub record TensorAttr : Type 0 where
    pub attr_dims : List ℕ
    pub attr_type : ℤ
    pub attr_scale : fl.F
    pub attr_zp : ℤ

  -- RKNN_QUERY_IN_OUT_NUM, and RKNN_QUERY_INPUT_ATTR of an index.
  pub record QuerySdk : Type 0 where
    pub in_out_num : Option (ℕ × ℕ)
    pub input_attr : ℕ → Option TensorAttr

  abbrev pub with_attr : ℕ → RknnRuntimeTensorInfo → Option TensorAttr → RknnRuntimeTensorInfo
  with_attr i info none = info
  with_attr i info (some a) = record {
    index = as_int i;
    dims = info.dims ++ map as_int a.attr_dims;
    type = a.attr_type;
    scale = a.attr_scale;
    zero_point = a.attr_zp;
  }

  -- The loop from index `i` on.
  unfoldable pub fill : QuerySdk → ℕ → List RknnRuntimeTensorInfo → List RknnRuntimeTensorInfo
  fill sdk i [] = []
  fill sdk i (info ∷ infos) = with_attr i info (sdk.input_attr i) ∷ fill sdk (i + 1) infos

  abbrev pub query_counted : QuerySdk → Option (ℕ × ℕ) → RknnRuntimeInfo → Bool × RknnRuntimeInfo
  query_counted sdk none info = (false, info)
  query_counted sdk (some (n, m)) info = (
    true,
    record {
      inputs = fill sdk 0 (resize blank_info info.inputs n);
      outputs = resize blank_info info.outputs m;
    },
  )

  unfoldable pub query : Option QuerySdk → RknnRuntimeInfo → Bool × RknnRuntimeInfo
  query none info = (false, info)
  query (some sdk) info = query_counted sdk sdk.in_out_num info
