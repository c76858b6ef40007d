-- ===== src/BufferPool.antt =====
-- The pool of equally large float buffers: tensor/buffer_pool.cpp.
-- Each function is what it does under the mutex. A buffer is its address; `none` is `nullptr`.
pub mod Owners
pub mod Tests
use pipe_ai_rk3588_industria.Prelude.{
  ℕ, ◌+◌, Bool, false, ◌||◌, Option, none, some, List, [], ◌∷◌, ◌++◌, ◌==◌, if◌then◌else◌,
}

pub record BufferPool : Type 0 where
  -- `free_`, its last element first.
  pub free : List ℕ
  pub all : List ℕ

abbrev pub add_buffer : BufferPool → ℕ → BufferPool
add_buffer pool p = record { free = p ∷ pool.free; all = pool.all ++ (p ∷ []) }

-- The constructor's loop, over the addresses that `new` gives.
unfoldable pub create : List ℕ → BufferPool → BufferPool
create [] pool = pool
create (p ∷ addresses) pool = create addresses (add_buffer pool p)

abbrev pub acquire_from : BufferPool → List ℕ → Option ℕ × BufferPool
acquire_from pool [] = (none, pool)
acquire_from pool (p ∷ free) = (some p, record pool { free = free })

unfoldable pub acquire : BufferPool → Option ℕ × BufferPool
acquire pool = acquire_from pool pool.free

-- `std::find(...) != end()`.
abbrev pub contains : ℕ → List ℕ → Bool
contains p [] = false
contains p (q ∷ qs) = (p == q) || contains p qs

unfoldable pub release : Option ℕ → BufferPool → BufferPool
release none pool = pool
release (some p) pool = if contains p pool.all then record pool { free = p ∷ pool.free } else pool
