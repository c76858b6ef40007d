-- ===== src/Queue/Wakeups/Defs.antt =====
-- The threads at the mutex of one queue, and their steps (pipeline/blocking_queue.hpp).
use pipe_ai_rk3588_industria.Prelude.{
  ℕ, ◌+◌, ◌-◌, ◌≡◌, Bool, true, false, Option, none, some, ltb, if◌then◌else◌,
}
use pipe_ai_rk3588_industria.Queue.{
  Queue, Outcome, waits, returns, Call, calls_push, calls_push_for, calls_pop, calls_pop_for,
  calls_close, push, push_for, pop, pop_for, close, emplace_impl,
}

pub record Monitor {ℓ} (A : Type ℓ) : Type ℓ where
  pub queue : Queue A
  -- Threads asleep on `not_empty_`, threads woken that have not yet the mutex again, and calls of
  -- `notify_one` and `notify_all` that are due; the same for `not_full_`.
  pub sleeping_pops : ℕ
  pub woken_pops : ℕ
  pub owed_not_empty : ℕ
  pub owed_all_not_empty : ℕ
  pub sleeping_pushes : ℕ
  pub woken_pushes : ℕ
  pub owed_not_full : ℕ
  pub owed_all_not_full : ℕ

pub data Move {ℓ} (A : Type ℓ) : Type ℓ where
  -- A thread comes with a new call, or goes on with a call after it was woken.
  starts : Call A → Move A
  resumes : Call A → Move A
  -- A sleeper wakes with no notification: spuriously, or because its time is over.
  stirs_pop : Move A
  stirs_push : Move A
  notifies_not_empty : Move A
  notifies_not_full : Move A
  notifies_all_not_empty : Move A
  notifies_all_not_full : Move A

module _ {ℓ} {A : Type ℓ} where
  abbrev pub after_push : Monitor A → Outcome (Bool × Queue A) → Monitor A
  after_push m waits = record m { sleeping_pushes = m.sleeping_pushes + 1 }
  after_push m (returns (true, q)) = record m { queue = q; owed_not_empty = m.owed_not_empty + 1 }
  after_push m (returns (false, q)) = record m { queue = q }

  abbrev pub after_pop : Monitor A → Outcome (Option A × Queue A) → Monitor A
  after_pop m waits = record m { sleeping_pops = m.sleeping_pops + 1 }
  after_pop m (returns (some v, q)) = record m { queue = q; owed_not_full = m.owed_not_full + 1 }
  after_pop m (returns (none, q)) = record m { queue = q }

  -- One call under the mutex.
  unfoldable pub enter : Call A → Monitor A → Monitor A
  unfolding emplace_impl push_for pop pop_for close
  enter (calls_push v) m = after_push m (push v m.queue)
  enter (calls_push_for v expired) m = after_push m (push_for v expired m.queue)
  enter calls_pop m = after_pop m (pop m.queue)
  enter (calls_pop_for expired) m = after_pop m (pop_for expired m.queue)
  enter calls_close m = record m {
    queue = close m.queue;
    owed_all_not_empty = m.owed_all_not_empty + 1;
    owed_all_not_full = m.owed_all_not_full + 1;
  }

  abbrev resume_push : Call A → Monitor A → Option (Monitor A)
  resume_push c m =
      if ltb 0 m.woken_pushes
      then some (enter c (record m { woken_pushes = m.woken_pushes - 1 }))
      else none

  abbrev resume_pop : Call A → Monitor A → Option (Monitor A)
  resume_pop c m =
      if ltb 0 m.woken_pops
      then some (enter c (record m { woken_pops = m.woken_pops - 1 }))
      else none

  abbrev wake_pop : Monitor A → Monitor A
  wake_pop m =
      if ltb 0 m.sleeping_pops
      then record m { sleeping_pops = m.sleeping_pops - 1; woken_pops = m.woken_pops + 1 }
      else m

  abbrev wake_push : Monitor A → Monitor A
  wake_push m =
      if ltb 0 m.sleeping_pushes
      then record m { sleeping_pushes = m.sleeping_pushes - 1; woken_pushes = m.woken_pushes + 1 }
      else m

  -- `none` is a move that the state does not allow.
  unfoldable pub move : Move A → Monitor A → Option (Monitor A)
  move (starts c) m = some (enter c m)
  move (resumes (calls_push v)) m = resume_push (calls_push v) m
  move (resumes (calls_push_for v b)) m = resume_push (calls_push_for v b) m
  move (resumes calls_pop) m = resume_pop calls_pop m
  move (resumes (calls_pop_for b)) m = resume_pop (calls_pop_for b) m
  move (resumes calls_close) m = none
  move stirs_pop m = some (wake_pop m)
  move stirs_push m = some (wake_push m)
  move notifies_not_empty m =
      if ltb 0 m.owed_not_empty
      then some (wake_pop (record m { owed_not_empty = m.owed_not_empty - 1 }))
      else none
  move notifies_not_full m =
      if ltb 0 m.owed_not_full
      then some (wake_push (record m { owed_not_full = m.owed_not_full - 1 }))
      else none
  move notifies_all_not_empty m =
      if ltb 0 m.owed_all_not_empty
      then some (record m {
        owed_all_not_empty = m.owed_all_not_empty - 1;
        sleeping_pops = 0;
        woken_pops = m.woken_pops + m.sleeping_pops;
      })
      else none
  move notifies_all_not_full m =
      if ltb 0 m.owed_all_not_full
      then some (record m {
        owed_all_not_full = m.owed_all_not_full - 1;
        sleeping_pushes = 0;
        woken_pushes = m.woken_pushes + m.sleeping_pushes;
      })
      else none

  -- Nobody has come yet.
  abbrev pub unvisited : Queue A → Monitor A
  unvisited q = record {
    queue = q;
    sleeping_pops = 0;
    woken_pops = 0;
    owed_not_empty = 0;
    owed_all_not_empty = 0;
    sleeping_pushes = 0;
    woken_pushes = 0;
    owed_not_full = 0;
    owed_all_not_full = 0;
  }

  -- Any history of moves from the first state.
  pub data Reach (q : Queue A) : Monitor A → Type ℓ where
    here : Reach q (unvisited q)
    next : {m n : Monitor A} (s : Move A) → Reach q m → move s m ≡ some n → Reach q n
