-- ===== src/BufferPool/Tests.antt =====
-- Two buffers and their users (tensor/buffer_pool.cpp).
use pipe_ai_rk3588_industria.Prelude.{ℕ, ◌+◌, ◌≡◌, refl, some, List, [], ◌∷◌}
use pipe_ai_rk3588_industria.BufferPool.{BufferPool, acquire, release}
use pipe_ai_rk3588_industria.BufferPool.Owners.{
  Use, takes, gives, share_all, shared_new, count, share_all_new, release_twice,
}

abbrev addresses : List ℕ
addresses = 100 ∷ 200 ∷ []

abbrev uses : List Use
uses = takes ∷ takes ∷ takes ∷ gives 200 ∷ takes ∷ gives 100 ∷ gives 300 ∷ []

share_all_new_example :
    let s = share_all uses (shared_new addresses) in count 200 s.pool.free + count 200 s.held ≡ 1
share_all_new_example = share_all_new addresses uses 200

abbrev pool : BufferPool
pool = record { free = []; all = addresses }

release_twice_example :
    let twice = release (some 100) (release (some 100) pool) in
    ((acquire twice).0 ≡ some 100) × ((acquire (acquire twice).1).0 ≡ some 100)
release_twice_example = release_twice 100 pool refl
