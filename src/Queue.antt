-- ===== src/Queue.antt =====
-- The bounded queue between pipeline stages: pipeline/blocking_queue.hpp.
-- Each member function is what it does under the mutex. `waits` is a call whose wait predicate is
-- false, so the thread goes to sleep and the queue is left alone; `returns` is a finished call.
pub mod Fifo
pub mod Shutdown
pub mod Wakeups
pub mod Tests
use pipe_ai_rk3588_industria.Prelude.{
  ℕ, Bool, true, false, not, ◌||◌, Option, none, some, List, [], ◌∷◌, ◌++◌, ltb, ◌==◌,
  if◌then◌else◌, length,
}

pub record Queue {ℓ} (A : Type ℓ) : Type ℓ where
  pub capacity : ℕ
  pub items : List A
  pub closed : Bool

pub data Outcome {ℓ} (R : Type ℓ) : Type ℓ where
  waits : Outcome R
  returns : R → Outcome R

module _ {ℓ} {A : Type ℓ} where
  -- The constructor; `none` is `std::invalid_argument`.
  unfoldable pub create : ℕ → Option (Queue A)
  create capacity =
      if capacity == 0
      then none
      else some (record { capacity = capacity; items = []; closed = false })

  -- What a thread waits for on `not_full_`, and on `not_empty_`.
  abbrev pub may_push : Queue A → Bool
  may_push q = q.closed || ltb (length q.items) q.capacity

  abbrev pub is_empty : List A → Bool
  is_empty [] = true
  is_empty (x ∷ xs) = false

  abbrev pub may_pop : Queue A → Bool
  may_pop q = q.closed || not (is_empty q.items)

  -- Behind the wait: a closed queue refuses the value.
  abbrev pub enqueue : A → Queue A → Bool × Queue A
  enqueue v q = if q.closed then (false, q) else (true, record q { items = q.items ++ (v ∷ []) })

  abbrev pub dequeue : Queue A → List A → Option A × Queue A
  dequeue q [] = (none, q)
  dequeue q (x ∷ xs) = (some x, record q { items = xs })

  unfoldable pub emplace_impl : A → Queue A → Outcome (Bool × Queue A)
  emplace_impl v q = if may_push q then returns (enqueue v q) else waits

  abbrev pub push : A → Queue A → Outcome (Bool × Queue A)
  push = emplace_impl

  -- The flag says that the timeout has passed; `wait_for` then gives the predicate's last value.
  unfoldable pub push_for : A → Bool → Queue A → Outcome (Bool × Queue A)
  push_for v expired q =
      if may_push q then returns (enqueue v q) else if expired then returns (false, q) else waits

  unfoldable pub pop : Queue A → Outcome (Option A × Queue A)
  pop q = if may_pop q then returns (dequeue q q.items) else waits

  unfoldable pub pop_for : Bool → Queue A → Outcome (Option A × Queue A)
  pop_for expired q =
      if may_pop q
      then returns (dequeue q q.items)
      else if expired
      then returns (none, q)
      else waits

  unfoldable pub close : Queue A → Queue A
  close q = record q { closed = true }

  unfoldable pub size : Queue A → ℕ
  size q = length q.items

-- A call that some thread makes, and what it reports.
pub data Call {ℓ} (A : Type ℓ) : Type ℓ where
  calls_push : A → Call A
  calls_push_for : A → Bool → Call A
  calls_pop : Call A
  calls_pop_for : Bool → Call A
  calls_close : Call A

pub data Event {ℓ} (A : Type ℓ) : Type ℓ where
  accepted : A → Event A
  refused : A → Event A
  delivered : A → Event A
  nothing : Event A
  asleep : Event A
  shut : Event A

module _ {ℓ} {A : Type ℓ} where
  abbrev pub pushed : A → Queue A → Outcome (Bool × Queue A) → Event A × Queue A
  pushed v q waits = (asleep, q)
  pushed v q (returns (true, q')) = (accepted v, q')
  pushed v q (returns (false, q')) = (refused v, q')

  abbrev pub popped : Queue A → Outcome (Option A × Queue A) → Event A × Queue A
  popped q waits = (asleep, q)
  popped q (returns (none, q')) = (nothing, q')
  popped q (returns (some v, q')) = (delivered v, q')

  unfoldable pub execute : Call A → Queue A → Event A × Queue A
  unfolding emplace_impl push_for pop pop_for close
  execute (calls_push v) q = pushed v q (push v q)
  execute (calls_push_for v expired) q = pushed v q (push_for v expired q)
  execute calls_pop q = popped q (pop q)
  execute (calls_pop_for expired) q = popped q (pop_for expired q)
  execute calls_close q = (shut, close q)

  -- The mutex makes a concurrent history a sequence of such calls, by any threads in any order.
  unfoldable pub run : List (Call A) → Queue A → List (Event A) × Queue A
  run [] q = ([], q)
  run (c ∷ cs) q = let (e, q') = execute c q in let (es, q'') = run cs q' in (e ∷ es, q'')

  abbrev pub accepts : List (Event A) → List A
  accepts [] = []
  accepts (accepted v ∷ es) = v ∷ accepts es
  accepts (refused v ∷ es) = accepts es
  accepts (delivered v ∷ es) = accepts es
  accepts (nothing ∷ es) = accepts es
  accepts (asleep ∷ es) = accepts es
  accepts (shut ∷ es) = accepts es

  abbrev pub deliveries : List (Event A) → List A
  deliveries [] = []
  deliveries (accepted v ∷ es) = deliveries es
  deliveries (refused v ∷ es) = deliveries es
  deliveries (delivered v ∷ es) = v ∷ deliveries es
  deliveries (nothing ∷ es) = deliveries es
  deliveries (asleep ∷ es) = deliveries es
  deliveries (shut ∷ es) = deliveries es
