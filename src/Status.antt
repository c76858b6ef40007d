-- ===== src/Status.antt =====
-- Error values: include/pipeai/error.hpp.
use pipe_ai_rk3588_industria.Prelude.{Bool, true, false, []}
use pipe_ai_rk3588_industria.Text.{Bytes}

pub data ErrorCode : Type 0 where
  all_ok invalid_argument io_error parse_error queue_closed : ErrorCode
  model_load_failed rknn_init_failed rknn_query_failed rknn_inference_failed : ErrorCode
  preprocess_failed : ErrorCode

pub record Status : Type 0 where
  pub code : ErrorCode
  pub message : Bytes

abbrev pub is_ok : Status → Bool
is_ok s = elim s.code [ all_ok ↦ true | _ ↦ false ]

abbrev pub success : Status
success = record { code = all_ok; message = [] }

abbrev pub failure : ErrorCode → Bytes → Status
failure c m = record { code = c; message = m }
