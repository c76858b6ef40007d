-- ===== src/RuntimeInfo/Tests.antt =====
-- A model with one input, and the answer of the SDK for it.
use pipe_ai_rk3588_industria.Prelude.{
  ℕ, ◌<◌, ◌≡◌, refl, true, none, some, [], ◌∷◌, ◌++◌, map, ◌==◌, if◌then◌else◌, length, get_elem?,
}
use pipe_ai_rk3588_industria.Prelude.Int.{pos}
use pipe_ai_rk3588_industria.Floats.Fixed.{fixed}
use pipe_ai_rk3588_industria.RuntimeInfo.{as_int, new_info, TensorAttr, QuerySdk, query}
use pipe_ai_rk3588_industria.RuntimeInfo.Twice.{described, after, query_twice}

abbrev attr : TensorAttr fixed
attr = record {
  attr_dims = 1 ∷ 128 ∷ 9 ∷ [];
  attr_type = pos 2;
  attr_scale = some (pos 3);
  attr_zp = pos 4;
}

abbrev sdk : QuerySdk fixed
sdk = record { in_out_num = some (1, 1); input_attr = λ i. if i == 0 then some attr else none }

query_twice_example :
    ((query fixed (some sdk) (new_info fixed)).0 ≡ true)
    × (length (after fixed sdk (new_info fixed)).inputs ≡ 1)
    × (length (after fixed sdk (new_info fixed)).outputs ≡ 1)
    × ((i : ℕ) (a : TensorAttr fixed)
        → i < 1
        → sdk.input_attr i ≡ some a
        → (get_elem? (after fixed sdk (new_info fixed)).inputs i
            ≡ some (described fixed i a (map as_int a.attr_dims)))
          × (get_elem? (after fixed sdk (after fixed sdk (new_info fixed))).inputs i
              ≡ some (described fixed i a (map as_int a.attr_dims ++ map as_int a.attr_dims))))
query_twice_example = query_twice fixed sdk 1 1 refl
