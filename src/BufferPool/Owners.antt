-- ===== src/BufferPool/Owners.antt =====
-- Who has which buffer (tensor/buffer_pool.cpp).
use pipe_ai_rk3588_industria.Prelude.{
  ℕ, ◌+◌, ◌<◌, ◌≡◌, refl, sym, ap, ◌∙◌, inl, inr, true, Option, none, some, List, [], ◌∷◌, ◌++◌,
  append-nil, append_assoc, arith, ◌==◌, if◌then◌else◌, Bool-cases,
}
use pipe_ai_rk3588_industria.BufferPool.{
  BufferPool, create, acquire, acquire_from, contains, release, add_buffer,
}

-- How often a buffer is in a list.
abbrev pub count : ℕ → List ℕ → ℕ
count p [] = 0
count p (q ∷ qs) = (if p == q then 1 else 0) + count p qs

abbrev pub remove : ℕ → List ℕ → List ℕ
remove p [] = []
remove p (q ∷ qs) = let rest = remove p qs in if p == q then qs else q ∷ rest

-- The pool, and the buffers that its users have.
pub record Shared : Type 0 where
  pub pool : BufferPool
  pub held : List ℕ

-- A user takes a buffer, or gives back one that it has.
pub data Use : Type 0 where
  takes : Use
  gives : ℕ → Use

abbrev taken : List ℕ → Option ℕ × BufferPool → Shared
taken held (none, pool) = record { pool = pool; held = held }
taken held (some p, pool) = record { pool = pool; held = p ∷ held }

unfoldable pub share : Use → Shared → Shared
unfolding acquire release
share takes s = taken s.held (acquire s.pool)
share (gives p) s =
    if contains p s.held
    then record { pool = release (some p) s.pool; held = remove p s.held }
    else s

unfoldable pub share_all : List Use → Shared → Shared
share_all [] s = s
share_all (u ∷ us) s = share_all us (share u s)

contains-count : (p : ℕ) (qs : List ℕ) → 0 < count p qs → contains p qs ≡ true
contains-count p [] h = ground arith
contains-count p (q ∷ qs) h = ground (arith, contains-count p qs)

count-contains : (p : ℕ) (qs : List ℕ) → contains p qs ≡ true → 0 < count p qs
count-contains p [] h = ground arith
count-contains p (q ∷ qs) h = ground (arith, count-contains p qs)

count-remove :
    (r p : ℕ) (qs : List ℕ)
    → contains p qs ≡ true
    → count r (remove p qs) + (if r == p then 1 else 0) ≡ count r qs
count-remove r p [] h = ground arith
count-remove r p (q ∷ qs) h = ground (arith, count-remove r p qs)

abbrev pub IsShared : List ℕ → Shared → Type 0
IsShared all s = (s.pool.all ≡ all) × ((r : ℕ) → count r s.pool.free + count r s.held ≡ count r all)

take-IsShared :
    (free all held : List ℕ)
    → ((r : ℕ) → count r free + count r held ≡ count r all)
    → IsShared all (taken held (acquire_from (record { free = free; all = all }) free))
take-IsShared [] all held h = (refl, h)
take-IsShared (p ∷ free) all held h = (refl, λ r. omega (arith, h r))

share-IsShared : (u : Use) (s : Shared) → IsShared s.pool.all s → IsShared s.pool.all (share u s)
unfolding share acquire release
share-IsShared takes s (e, h) = take-IsShared s.pool.free s.pool.all s.held h
share-IsShared (gives p) s (e, h) = elim (Bool-cases (contains p s.held)) [
  | inr outside ↦ rw outside (e, h)
  | inl held ↦
      let there : contains p s.pool.all ≡ true =
        contains-count p s.pool.all (omega (arith, h p, count-contains p s.held held)) in
      rw (held, there) (refl, λ r. omega (arith, h r, count-remove r p s.held held))
]

share_all-IsShared :
    (us : List Use) (s : Shared) → IsShared s.pool.all s → IsShared s.pool.all (share_all us s)
unfolding share_all
share_all-IsShared [] s h = h
share_all-IsShared (u ∷ us) s h =
    let (e, next) = share-IsShared u s h in
    let (e', last) = share_all-IsShared us (share u s) (refl, λ r. next r ∙ ap (count r) (sym e)) in
    (e' ∙ e, λ r. last r ∙ ap (count r) e)

create_lem :
    (addresses : List ℕ) (pool : BufferPool)
    → let made = create addresses pool in
      (made.all ≡ pool.all ++ addresses)
      × ((r : ℕ) → count r made.free ≡ count r pool.free + count r addresses)
unfolding create
create_lem [] pool = (sym (append-nil pool.all), λ r. omega arith)
create_lem (p ∷ addresses) pool =
    let (e, h) = create_lem addresses (add_buffer pool p) in
    (e ∙ append_assoc pool.all (p ∷ []) addresses, λ r. omega (arith, h r))

abbrev pub no_buffers : BufferPool
no_buffers = record { free = []; all = [] }

abbrev pub shared_new : List ℕ → Shared
shared_new addresses = record { pool = create addresses no_buffers; held = [] }

-- While users only give back what they have, every buffer that was allocated is, as often as it was
-- allocated, free or with a user: none is lost, and none is at two places.
pub share_all_new :
    (addresses : List ℕ) (us : List Use) (r : ℕ)
    → let s = share_all us (shared_new addresses) in
      count r s.pool.free + count r s.held ≡ count r addresses
share_all_new addresses us r =
    let (all, free) = create_lem addresses no_buffers in
    let start : IsShared (create addresses no_buffers).all (shared_new addresses) =
      (refl, λ q. omega (arith, free q) ∙ ap (count q) (sym all)) in
    (share_all-IsShared us (shared_new addresses) start).1 r ∙ ap (count r) all

-- A buffer of the pool that is released twice is handed out twice: the next two calls of `acquire`
-- both return it.
pub release_twice :
    (p : ℕ) (pool : BufferPool)
    → contains p pool.all ≡ true
    → let twice = release (some p) (release (some p) pool) in
      ((acquire twice).0 ≡ some p) × ((acquire (acquire twice).1).0 ≡ some p)
unfolding release acquire
release_twice p pool h = rw (h, h) (refl, refl)
