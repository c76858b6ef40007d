-- ===== src/Handover.antt =====
-- The program tests/test_blocking_queue.cpp: a thread pops values from a queue until there are none,
-- while another pushes values, closes the queue and joins the first. Each call of the queue is a step.
pub mod Course
pub mod Tests
use pipe_ai_rk3588_industria.Prelude.{
  ℕ, ◌+◌, Bool, true, false, not, ◌||◌, Option, none, some, List, [], ◌∷◌, ◌++◌, if◌then◌else◌,
}
use pipe_ai_rk3588_industria.Queue.{Queue, Outcome, waits, returns, push, pop, close, emplace_impl}

-- The main thread, with the values that it has still to push, and in the join.
pub data Producer : Type 0 where
  pushing : List ℕ → Producer
  joining : Producer

-- `failed` tells whether an `assert` on a push has failed.
pub record Handover : Type 0 where
  pub queue : Queue ℕ
  pub producer : Producer
  pub consumed : List ℕ
  pub finished : Bool
  pub failed : Bool

abbrev pub after_push : List ℕ → Handover → Outcome (Bool × Queue ℕ) → Option Handover
after_push values h waits = none
after_push values h (returns (ok, q)) =
    some (record h { queue = q; producer = pushing values; failed = h.failed || not ok })

-- `none` while the thread waits, and when it has nothing left to do.
unfoldable pub producer_step : Producer → Handover → Option Handover
unfolding close
producer_step (pushing (v ∷ values)) h = after_push values h (push v h.queue)
producer_step (pushing []) h = some (record h { queue = close h.queue; producer = joining })
producer_step joining h = none

abbrev pub after_pop : Handover → Outcome (Option ℕ × Queue ℕ) → Option Handover
after_pop h waits = none
after_pop h (returns (none, q)) = some (record h { queue = q; finished = true })
after_pop h (returns (some v, q)) = some (record h { queue = q; consumed = h.consumed ++ (v ∷ []) })

unfoldable pub consumer_step : Handover → Option Handover
consumer_step h = if h.finished then none else after_pop h (pop h.queue)

abbrev pub new_handover : ℕ → List ℕ → Handover
new_handover capacity values = record {
  queue = record { capacity = capacity; items = []; closed = false };
  producer = pushing values;
  consumed = [];
  finished = false;
  failed = false;
}
