-- ===== src/RuntimeInfo/Twice.antt =====
-- A query, and the same query again (model/rknn_runtime/rknn_engine_runtime.cpp).
use pipe_ai_rk3588_industria.Prelude.{
  ℕ, zero, suc, ◌+◌, ◌<◌, ◌≡◌, refl, ap, ◌∙◌, true, some, List, [], ◌∷◌, ◌++◌, map, arith, length,
  get_elem?, bind,
}
use pipe_ai_rk3588_industria.Prelude.Int.{ℤ}
use pipe_ai_rk3588_industria.Floats.{Floats}
use pipe_ai_rk3588_industria.Quant.{resize}
use pipe_ai_rk3588_industria.RuntimeInfo.{
  as_int, RknnRuntimeTensorInfo, RknnRuntimeInfo, blank_info, new_info, TensorAttr, QuerySdk,
  with_attr, fill, query_counted, query,
}

length-resize {ℓ} : {A : Type ℓ} (d : A) (xs : List A) (n : ℕ) → length (resize d xs n) ≡ n
length-resize d xs zero = refl
length-resize d [] (suc n) = ap suc (length-resize d [] n)
length-resize d (x ∷ xs) (suc n) = ap suc (length-resize d xs n)

get_elem?-resize_nil {ℓ} :
    {A : Type ℓ} (d : A) (n i : ℕ) → i < n → get_elem? (resize d [] n) i ≡ some d
get_elem?-resize_nil d zero i h = elim h [ ]
get_elem?-resize_nil d (suc n) zero h = refl
get_elem?-resize_nil d (suc n) (suc i) h = get_elem?-resize_nil d n i (omega arith)

resize_same {ℓ} : {A : Type ℓ} (d : A) (xs : List A) (n : ℕ) → length xs ≡ n → resize d xs n ≡ xs
resize_same d [] zero h = refl
resize_same d [] (suc n) h = ground arith
resize_same d (x ∷ xs) zero h = ground arith
resize_same d (x ∷ xs) (suc n) h = ap (λ ys. x ∷ ys) (resize_same d xs n (omega arith))

module _ (fl : Floats) where
  length-fill :
      (sdk : QuerySdk fl) (k : ℕ) (infos : List (RknnRuntimeTensorInfo fl))
      → length (fill fl sdk k infos) ≡ length infos
  unfolding fill
  length-fill sdk k [] = refl
  length-fill sdk k (x ∷ infos) = ap suc (length-fill sdk (k + 1) infos)

  get_elem?-fill :
      (sdk : QuerySdk fl) (k i j : ℕ) (infos : List (RknnRuntimeTensorInfo fl))
      → j ≡ k + i
      → get_elem? (fill fl sdk k infos) i
        ≡ bind (get_elem? infos i) (λ x. some (with_attr fl j x (sdk.input_attr j)))
  unfolding fill
  get_elem?-fill sdk k i j [] e = refl
  get_elem?-fill sdk k zero j (x ∷ infos) e = let e' : j ≡ k = omega arith in rw e'
  get_elem?-fill sdk k (suc i) j (x ∷ infos) e = get_elem?-fill sdk (k + 1) i j infos (omega arith)

  -- The information of input `i` with those dimensions.
  abbrev pub described : ℕ → TensorAttr fl → List ℤ → RknnRuntimeTensorInfo fl
  described i a dims = record {
    index = as_int i;
    dims = dims;
    type = a.attr_type;
    scale = a.attr_scale;
    zero_point = a.attr_zp;
  }

  abbrev pub after : QuerySdk fl → RknnRuntimeInfo fl → RknnRuntimeInfo fl
  after sdk info = (query fl (some sdk) info).1

  -- If the SDK answers, a query of a new object succeeds, makes as many inputs and outputs as
  -- the model has, and describes each input whose attributes it gets with those attributes. The same query again
  -- succeeds as well, but then the dimensions of each such input stand there twice, one after the other.
  pub query_twice :
      (sdk : QuerySdk fl) (n m : ℕ)
      → sdk.in_out_num ≡ some (n, m)
      → ((query fl (some sdk) (new_info fl)).0 ≡ true)
        × (length (after sdk (new_info fl)).inputs ≡ n)
        × (length (after sdk (new_info fl)).outputs ≡ m)
        × ((i : ℕ) (a : TensorAttr fl)
            → i < n
            → sdk.input_attr i ≡ some a
            → (get_elem? (after sdk (new_info fl)).inputs i
                ≡ some (described i a (map as_int a.attr_dims)))
              × (get_elem? (after sdk (after sdk (new_info fl))).inputs i
                  ≡ some (described i a (map as_int a.attr_dims ++ map as_int a.attr_dims))))
  unfolding query
  query_twice sdk n m h =
      let blanks = resize (blank_info fl) [] n in
      let first = fill fl sdk 0 blanks in
      let count : length first ≡ n = length-fill sdk 0 blanks ∙ length-resize _ [] n in
      let filled : (info : RknnRuntimeInfo fl)
          → (after sdk info).inputs ≡ fill fl sdk 0 (resize (blank_info fl) info.inputs n) =
        λ info. ap (λ c. (query_counted fl sdk c info).1.inputs) h in
      let again : (after sdk (after sdk (new_info fl))).inputs ≡ fill fl sdk 0 first =
        filled (after sdk (new_info fl))
        ∙ ap (λ xs. fill fl sdk 0 (resize (blank_info fl) xs n)) (filled (new_info fl))
        ∙ ap (fill fl sdk 0) (resize_same (blank_info fl) first n count) in
      (
        ap (λ c. (query_counted fl sdk c (new_info fl)).0) h,
        ap length (filled (new_info fl)) ∙ count,
        ap (λ c. length (query_counted fl sdk c (new_info fl)).1.outputs) h ∙ length-resize _ [] m,
        λ i a below e.
            let one : get_elem? first i ≡ some (described i a (map as_int a.attr_dims)) = rw (
              get_elem?-fill sdk 0 i i blanks (omega arith),
              get_elem?-resize_nil (blank_info fl) n i below,
              e,
            ) in
            (
              ap (λ xs. get_elem? xs i) (filled (new_info fl)) ∙ one,
              ap (λ xs. get_elem? xs i) again
                  ∙ rw (get_elem?-fill sdk 0 i i first (omega arith), one, e),
            ),
      )
