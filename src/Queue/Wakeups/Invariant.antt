-- ===== src/Queue/Wakeups/Invariant.antt =====
-- No wake-up is lost between the threads that use one queue (pipeline/blocking_queue.hpp).
use pipe_ai_rk3588_industria.Prelude.{
  ◌+◌, ◌≤◌, ◌<◌, ◌≡◌, refl, ◌⊎◌, inl, inr, true, false, some, [], ◌∷◌, arith, length, length-append,
}
use pipe_ai_rk3588_industria.Queue.{
  Queue, Call, calls_push, calls_push_for, calls_pop, calls_pop_for, calls_close,
}
use pipe_ai_rk3588_industria.Queue.Wakeups.Defs.{
  Monitor, Move, starts, resumes, stirs_pop, stirs_push, notifies_not_empty, notifies_not_full,
  notifies_all_not_empty, notifies_all_not_full, enter, move, Reach, here, next,
}

module _ {ℓ} {A : Type ℓ} where
  -- While a thread sleeps, each value it might take, or each free place, has a wake-up on its way.
  pub record Inv (m : Monitor A) : Type 0 where
    pub pops_covered :
        (m.queue.closed ≡ true)
        ⊎ ((m.sleeping_pops ≡ 0) ⊎ (length m.queue.items ≤ m.owed_not_empty + m.woken_pops))
    pub pushes_covered :
        (m.queue.closed ≡ true)
        ⊎ ((m.sleeping_pushes ≡ 0)
            ⊎ (m.queue.capacity ≤ length m.queue.items + m.owed_not_full + m.woken_pushes))
    pub pops_released :
        (m.queue.closed ≡ false) ⊎ ((m.sleeping_pops ≡ 0) ⊎ (0 < m.owed_all_not_empty))
    pub pushes_released :
        (m.queue.closed ≡ false) ⊎ ((m.sleeping_pushes ≡ 0) ⊎ (0 < m.owed_all_not_full))

  enter-Inv : (c : Call A) (m : Monitor A) → Inv m → Inv (enter c m)
  unfolding enter
  enter-Inv (calls_push v) m h = ground (arith, length-append m.queue.items (v ∷ []))
  enter-Inv (calls_push_for v b) m h = ground (arith, length-append m.queue.items (v ∷ []))
  enter-Inv calls_pop m h = ground arith
  enter-Inv (calls_pop_for b) m h = ground arith
  enter-Inv calls_close m h = ground arith

  move-Inv : (s : Move A) (m : Monitor A) {n : Monitor A} → Inv m → move s m ≡ some n → Inv n
  unfolding move enter
  move-Inv (starts c) m h e = ground (arith, enter-Inv c m h)
  move-Inv (resumes (calls_push v)) m h e = ground (arith, length-append m.queue.items (v ∷ []))
  move-Inv (resumes (calls_push_for v b)) m h e =
      ground (arith, length-append m.queue.items (v ∷ []))
  move-Inv (resumes calls_pop) m h e = ground arith
  move-Inv (resumes (calls_pop_for b)) m h e = ground arith
  move-Inv (resumes calls_close) m h e = ground arith
  move-Inv stirs_pop m h e = ground arith
  move-Inv stirs_push m h e = ground arith
  move-Inv notifies_not_empty m h e = ground arith
  move-Inv notifies_not_full m h e = ground arith
  move-Inv notifies_all_not_empty m h e = ground arith
  move-Inv notifies_all_not_full m h e = ground arith

  Reach-Inv : {q : Queue A} {m : Monitor A} → Reach q m → Inv m
  Reach-Inv here = record {
    pops_covered = inr (inl refl);
    pushes_covered = inr (inl refl);
    pops_released = inr (inl refl);
    pushes_released = inr (inl refl);
  }
  Reach-Inv (next {m} s r e) = move-Inv s m (Reach-Inv r) e

  -- Every notification was made, and every woken thread has gone on.
  abbrev pub IsQuiet : Monitor A → Type 0
  IsQuiet m =
      (m.woken_pops ≡ 0)
      × (m.owed_not_empty ≡ 0)
      × (m.owed_all_not_empty ≡ 0)
      × (m.woken_pushes ≡ 0)
      × (m.owed_not_full ≡ 0)
      × (m.owed_all_not_full ≡ 0)

  -- No wake-up is lost. Whatever threads came, slept, were woken or timed out, once every due
  -- notification was made and every woken thread went on, a thread still asleep in a pop means that
  -- the queue is open and empty, and one still asleep in a push that it is open and full.
  pub Reach-no_lost_wakeup :
      {q : Queue A} {m : Monitor A}
      → Reach q m
      → IsQuiet m
      → (0 < m.sleeping_pops → (m.queue.closed ≡ false) × (m.queue.items ≡ []))
        × (0 < m.sleeping_pushes
            → (m.queue.closed ≡ false) × (m.queue.capacity ≤ length m.queue.items))
  Reach-no_lost_wakeup {m = m} r quiet = ground (arith, Reach-Inv r)
