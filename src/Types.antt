-- ===== src/Types.antt =====
-- The data that the stages hand on: include/pipeai/types.hpp.
use pipe_ai_rk3588_industria.Prelude.{
  ℕ, ◌+◌, ◌*◌, Bool, true, Option, none, List, get_elem?, replicate,
}
use pipe_ai_rk3588_industria.Floats.{Floats}

abbrev pub radar_channels : ℕ
radar_channels = 8

abbrev pub input_channels : ℕ
input_channels = 9

abbrev pub target_length : ℕ
target_length = 128

abbrev pub class_count : ℕ
class_count = 5

abbrev pub element_count : ℕ
element_count = target_length * input_channels

-- `sizeof(float)` is 4, which the source asserts.
abbrev pub byte_size : ℕ
byte_size = element_count * 4

module _ (fl : Floats) where
  open fl use {F, zero_f, quiet_nan}

  -- `radar` is a `std::array` of `radar_channels` values.
  pub record RawSample : Type 0 where
    pub timestamp_ns : ℕ
    pub radar : List F
    pub imu : F

  -- `values` of a `ModelInput`, a `std::array` of `element_count` values in row-major order.
  abbrev pub ModelInput : Type 0
  ModelInput = List F

  abbrev pub cleared_input : ModelInput
  cleared_input = replicate element_count zero_f

  abbrev pub position : ℕ → ℕ → ℕ
  position t c = t * input_channels + c

  -- `at(t, c)`; `none` is `std::out_of_range`.
  abbrev pub at : ModelInput → ℕ → ℕ → Option F
  at values t c = get_elem? values (position t c)

  pub record InferenceResult : Type 0 where
    pub window_id : ℕ
    pub window_start_ns : ℕ
    pub window_end_ns : ℕ
    pub logits : List F
    pub probabilities : List F
    -- `none` is the initial -1.
    pub class_id : Option ℕ
    pub confidence : F
    pub input_healthy : Bool

  abbrev pub blank_result : InferenceResult
  blank_result = record {
    window_id = 0;
    window_start_ns = 0;
    window_end_ns = 0;
    logits = replicate class_count zero_f;
    probabilities = replicate class_count zero_f;
    class_id = none;
    confidence = zero_f;
    input_healthy = true;
  }
