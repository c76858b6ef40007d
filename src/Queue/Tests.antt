-- ===== src/Queue/Tests.antt =====
-- Runs of the queue on concrete calls, after tests/test_blocking_queue.cpp.
use pipe_ai_rk3588_industria.Prelude.{
  ℕ, ◌≤◌, ◌<◌, ◌≡◌, refl, ◌↔◌, true, false, none, some, List, [], ◌∷◌, ◌++◌, length,
}
use pipe_ai_rk3588_industria.Queue.{
  Queue, Call, calls_push, calls_push_for, calls_pop, calls_close, create, execute, run, accepts,
  deliveries, close, accepted, refused, delivered, nothing, asleep, shut,
}
use pipe_ai_rk3588_industria.Queue.Fifo.{run_fifo, create_bounded}
use pipe_ai_rk3588_industria.Queue.Shutdown.{NoneAsleep, run_closed}
use pipe_ai_rk3588_industria.Queue.Wakeups.{
  Monitor, Reach, here, next, starts, notifies_not_empty, unvisited, move, enter,
  Reach-no_lost_wakeup,
}

abbrev two_items : Queue ℕ
two_items = record { capacity = 2; items = 1 ∷ 2 ∷ []; closed = false }

abbrev calls : List (Call ℕ)
calls =
    calls_push 3
    ∷ calls_pop
    ∷ calls_push 3
    ∷ calls_push_for 4 true
    ∷ calls_close
    ∷ calls_push 5
    ∷ calls_pop
    ∷ calls_pop
    ∷ calls_pop
    ∷ []

runs : run calls two_items ≡ (
  asleep
      ∷ delivered 1
      ∷ accepted 3
      ∷ refused 4
      ∷ shut
      ∷ refused 5
      ∷ delivered 2
      ∷ delivered 3
      ∷ nothing
      ∷ [],
  record { capacity = 2; items = []; closed = true },
)
unfolding run execute
runs = refl

run_fifo_example :
    two_items.items ++ accepts (run calls two_items).0
    ≡ deliveries (run calls two_items).0 ++ (run calls two_items).1.items
run_fifo_example = run_fifo calls two_items

create_bounded_example :
    ((create {A = ℕ} 2 ≡ none) ↔ ◌≡◌ {A = ℕ} 2 0)
    × ((q : Queue ℕ) → create 2 ≡ some q → length (run calls q).1.items ≤ 2)
create_bounded_example = create_bounded 2 calls

run_closed_example :
    NoneAsleep (run calls (close two_items)).0
    × (accepts (run calls (close two_items)).0 ≡ [])
    × ((run calls (close two_items)).1.closed ≡ true)
run_closed_example = run_closed calls two_items

abbrev open_queue : Queue ℕ
open_queue = record { capacity = 1; items = []; closed = false }

-- One push goes through and notifies nobody; the next goes to sleep.
abbrev waiting : Monitor ℕ
waiting = record (unvisited (record open_queue { items = 7 ∷ [] })) { sleeping_pushes = 1 }

blocked : Reach open_queue waiting
unfolding move enter
blocked =
    next (starts (calls_push 8))
      (next notifies_not_empty (next (starts (calls_push 7)) here refl) refl) refl

Reach-no_lost_wakeup_example :
    (0 < waiting.sleeping_pops → (waiting.queue.closed ≡ false) × (waiting.queue.items ≡ []))
    × (0 < waiting.sleeping_pushes
        → (waiting.queue.closed ≡ false) × (waiting.queue.capacity ≤ length waiting.queue.items))
Reach-no_lost_wakeup_example = Reach-no_lost_wakeup blocked (refl, refl, refl, refl, refl, refl)
