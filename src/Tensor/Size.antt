-- ===== src/Tensor/Size.antt =====
-- The size of a reshaped tensor (tensor/tensor.cpp).
use mathlib.Core.Path.{subst}
use native.Mathlib.Nat.{
  mod-add-div, add-mul-mod_self_left, mod-eq_of_lt, mod-lt, mul-one, one-mul, add-mul, mul_comm,
  mul_assoc,
}
use pipe_ai_rk3588_industria.Prelude.{
  ℕ, zero, suc, ◌+◌, ◌*◌, ◌/◌, ◌%◌, ◌<◌, ◌≡◌, refl, sym, ap, ◌∙◌, ◌⊎◌, inl, inr, Bool, true, false,
  List, [], ◌∷◌, map, arith, Bool-cases, length, get_or,
}
use pipe_ai_rk3588_industria.Tensor.{
  size_limit, as_size, multiply, Tensor, TensorType, type_size, count_elements, elements, bytes,
  refill, reshape, float32, int8, uint8,
}
use pipe_ai_rk3588_industria.Quant.{resize}
use pipe_ai_rk3588_industria.Prelude.Int.{ℤ, pos}

-- The product of the dimensions.
abbrev pub volume : List ℕ → ℕ
volume [] = 1
volume (d ∷ dims) = let rest = volume dims in d * rest

-- A factor may be reduced before a product is.
reduced_left : (n k m : ℕ) → n % m * k % m ≡ n * k % m
reduced_left n k m =
    sym (add-mul-mod_self_left (n % m * k) m (n / m * k))
    ∙ ap (λ x. (n % m * k + x) % m) (sym (mul_assoc m (n / m) k))
    ∙ ap (λ x. x % m) (sym (add-mul (n % m) (m * (n / m)) k))
    ∙ ap (λ x. x * k % m) (mod-add-div n m)

pulled : (n d v : ℕ) → n * d * v ≡ d * (n * v)
pulled n d v = ap (λ x. x * v) (mul_comm n d) ∙ mul_assoc d n v

-- The second of three factors may be reduced.
reduced_middle : (n d v m : ℕ) → n * (d % m) * v % m ≡ n * (d * v) % m
reduced_middle n d v m =
    ap (λ x. x % m) (pulled n (d % m) v)
    ∙ reduced_left d (n * v) m
    ∙ ap (λ x. x % m) (sym (pulled n d v) ∙ mul_assoc n d v)

multiply-volume :
    (n : ℕ) (dims : List ℕ) → multiply n (map pos dims) % size_limit ≡ n * volume dims % size_limit
unfolding multiply
multiply-volume n [] = ap (λ x. x % size_limit) (sym (mul-one n))
multiply-volume n (d ∷ dims) =
    multiply-volume (n * (d % size_limit) % size_limit) dims
    ∙ reduced_left (n * (d % size_limit)) (volume dims) size_limit
    ∙ reduced_middle n d (volume dims) size_limit

multiply-small : (n : ℕ) (shape : List ℤ) → n < size_limit → multiply n shape < size_limit
unfolding multiply
multiply-small n [] h = h
multiply-small n (v ∷ shape) h =
    multiply-small (n * as_size v % size_limit) shape (mod-lt (n * as_size v) (omega arith))

length-resize : (xs : List ℕ) (n : ℕ) → length (resize 0 xs n) ≡ n
length-resize xs zero = refl
length-resize [] (suc n) = ap suc (length-resize [] n)
length-resize (x ∷ xs) (suc n) = ap suc (length-resize xs n)

get_or-resize : (xs : List ℕ) (n k : ℕ) → k < n → get_or (resize 0 xs n) k 0 ≡ get_or xs k 0
get_or-resize xs zero k h = ground arith
get_or-resize [] (suc n) zero h = refl
get_or-resize [] (suc n) (suc k) h = get_or-resize [] n k (omega (arith, h))
get_or-resize (x ∷ xs) (suc n) zero h = refl
get_or-resize (x ∷ xs) (suc n) (suc k) h = get_or-resize xs n k (omega (arith, h))

count_elements-volume :
    (d : ℕ) (dims : List ℕ)
    → volume (d ∷ dims) < size_limit
    → count_elements (map pos (d ∷ dims)) ≡ volume (d ∷ dims)
count_elements-volume d dims h =
    sym (mod-eq_of_lt (multiply-small 1 (map pos (d ∷ dims)) (omega arith)))
    ∙ multiply-volume 1 (d ∷ dims)
    ∙ ap (λ x. x % size_limit) (one-mul (volume (d ∷ dims)))
    ∙ mod-eq_of_lt h

volume-small : (type : TensorType) (n : ℕ) → n * type_size type < size_limit → n < size_limit
volume-small float32 n h = omega (arith, h)
volume-small int8 n h = omega (arith, h)
volume-small uint8 n h = omega (arith, h)

-- What becomes of the buffer when `n` bytes are asked for.
abbrev pub IsRefilled : ℕ → Tensor → Bool × Tensor → Type 0
IsRefilled n t (ok, t') =
    ((ok ≡ true) × (bytes t' ≡ n) × ((k : ℕ) → k < n → get_or t'.buffer k 0 ≡ get_or t.buffer k 0))
    ⊎ ((ok ≡ false) × (t'.buffer ≡ t.buffer))

refill-cases :
    (fits : ℕ → Bool) (n : ℕ) (t : Tensor)
    → ((refill fits n t).1.shape ≡ t.shape)
      × ((refill fits n t).1.type ≡ t.type)
      × IsRefilled n t (refill fits n t)
refill-cases fits n t = elim (Bool-cases (fits n)) [
  | inl e ↦ rw e (refl, refl, inl (refl, length-resize t.buffer n, get_or-resize t.buffer n))
  | inr e ↦ rw e (refl, refl, inr (refl, refl))
]

-- A tensor that is given dimensions none of which is negative, and whose bytes a size can count, has
-- as many elements as their product, and the same type. Either its buffer then has the bytes of
-- these elements, those that it had before kept and the new ones 0, or the allocator throws, and it
-- has the new shape over the buffer from before.
pub reshape_bytes :
    (fits : ℕ → Bool) (t : Tensor) (d : ℕ) (dims : List ℕ)
    → volume (d ∷ dims) * type_size t.type < size_limit
    → let (ok, t') = reshape fits (map pos (d ∷ dims)) t in
      (elements t' ≡ volume (d ∷ dims))
      × (t'.type ≡ t.type)
      × IsRefilled (volume (d ∷ dims) * type_size t.type) t (ok, t')
unfolding reshape
reshape_bytes fits t d dims h =
    let asked : ℕ = count_elements (map pos (d ∷ dims)) * type_size t.type % size_limit in
    let (shape, type, filled) = refill-cases fits asked (record t { shape = map pos (d ∷ dims) }) in
    let volume_at = count_elements-volume d dims (volume-small t.type (volume (d ∷ dims)) h) in
    let same : asked ≡ volume (d ∷ dims) * type_size t.type =
      ap (λ x. x * type_size t.type % size_limit) volume_at ∙ mod-eq_of_lt h in
    (
      ap count_elements shape ∙ volume_at,
      type,
      subst (λ n. IsRefilled n t (reshape fits (map pos (d ∷ dims)) t)) same filled,
    )
