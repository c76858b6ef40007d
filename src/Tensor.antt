-- ===== src/Tensor.antt =====
-- The shaped byte buffer: tensor/tensor.cpp. A dimension is an `int`; sizes are computed in a
-- `std::size_t` of 64 bits, which wraps. Whether the allocator gives so many bytes is a parameter.
pub mod Size
pub mod Tests
use pipe_ai_rk3588_industria.Prelude.{
  ℕ, ◌-◌, ◌*◌, ◌%◌, ◌^◌, Bool, true, false, Option, none, some, List, [], ◌∷◌, if◌then◌else◌,
  length,
}
use pipe_ai_rk3588_industria.Quant.{resize}
use pipe_ai_rk3588_industria.Prelude.Int.{ℤ, pos, negsuc}

pub data TensorType : Type 0 where
  float32 int8 uint8 : TensorType

abbrev pub type_size : TensorType → ℕ
type_size float32 = 4
type_size int8 = 1
type_size uint8 = 1

pub record Tensor : Type 0 where
  pub shape : List ℤ
  pub type : TensorType
  pub buffer : List ℕ

abbrev pub new_tensor : Tensor
new_tensor = record { shape = []; type = float32; buffer = [] }

abbrev pub size_limit : ℕ
size_limit = 2 ^ 64

-- An `int` as a `std::size_t`.
abbrev pub as_size : ℤ → ℕ
as_size (pos n) = n % size_limit
as_size (negsuc n) = size_limit - 1 - n % size_limit

-- `for (int v : shape_) n *= v;`
unfoldable pub multiply : ℕ → List ℤ → ℕ
multiply n [] = n
multiply n (v ∷ shape) = multiply (n * as_size v % size_limit) shape

abbrev pub count_elements : List ℤ → ℕ
count_elements [] = 0
count_elements (v ∷ shape) = multiply 1 (v ∷ shape)

abbrev pub elements : Tensor → ℕ
elements t = count_elements t.shape

abbrev pub bytes : Tensor → ℕ
bytes t = length t.buffer

-- `false` is the exception of `buffer_.resize`, which leaves the buffer as it was.
abbrev pub refill : (ℕ → Bool) → ℕ → Tensor → Bool × Tensor
refill fits n t = if fits n then (true, record t { buffer = resize 0 t.buffer n }) else (false, t)

unfoldable pub reshape : (ℕ → Bool) → List ℤ → Tensor → Bool × Tensor
reshape fits shape t =
    refill fits (count_elements shape * type_size t.type % size_limit) (record t { shape = shape })

-- `none` is a constructor that throws.
abbrev pub constructed : Bool × Tensor → Option Tensor
constructed (ok, t) = if ok then some t else none

abbrev pub make_tensor : (ℕ → Bool) → List ℤ → TensorType → Option Tensor
make_tensor fits shape type =
    constructed (reshape fits shape (record { shape = shape; type = type; buffer = [] }))
