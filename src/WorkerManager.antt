-- ===== src/WorkerManager.antt =====
-- The list of named workers: runtime/worker_manager.cpp, over pipeline/worker.cpp.
-- `stop_all` is cut where other threads run between: at the exchange of a worker's flag and the join.
pub mod Stopping
pub mod Tests
use pipe_ai_rk3588_industria.Prelude.{
  ℕ, zero, suc, ◌+◌, Bool, true, false, not, ◌&&◌, Option, none, some, List, [], ◌∷◌, ◌++◌,
  if◌then◌else◌, bind,
}
use pipe_ai_rk3588_industria.Worker.{Worker, new_worker, start, lower_flag, leave, join}
use pipe_ai_rk3588_industria.Text.{Bytes}

-- `worker` is the pointer, which may be null.
pub record Entry : Type 0 where
  pub name : Bytes
  pub worker : Option Worker

pub record WorkerManager : Type 0 where
  pub workers : List Entry

abbrev pub new_manager : WorkerManager
new_manager = record { workers = [] }

-- With what the start of a new worker gives; `none` is its `std::terminate`.
abbrev pub added : Bytes → WorkerManager → Option (Bool × Worker) → Option (Bool × WorkerManager)
added name m none = none
added name m (some (ok, w)) =
    if not ok
    then some (false, m)
    else some
        (true, record { workers = m.workers ++ (record { name = name; worker = some w } ∷ []) })

unfoldable pub add : Bytes → WorkerManager → Option (Bool × WorkerManager)
add name m = added name m (start new_worker)

abbrev pub start_all : WorkerManager → Bool
start_all m = true

-- `item.worker && !item.worker->running()`.
abbrev pub is_down : Option Worker → Bool
is_down none = false
is_down (some w) = not w.running

unfoldable pub healthy_from : List Entry → Bool
healthy_from [] = true
healthy_from (e ∷ entries) =
    let rest = healthy_from entries in if is_down e.worker then false else rest

abbrev pub healthy : WorkerManager → Bool
healthy m = healthy_from m.workers

-- The loop of `stop_all`: the entries behind it, the ones from the current one on, and whether it is in
-- the join of the current one.
pub record StopLoop : Type 0 where
  pub passed : List Entry
  pub left : List Entry
  pub joining : Bool

abbrev pub stop_all : WorkerManager → StopLoop
stop_all m = record { passed = []; left = m.workers; joining = false }

abbrev pub pass : Entry → List Entry → List Entry → StopLoop
pass e entries passed = record { passed = passed ++ (e ∷ []); left = entries; joining = false }

abbrev pub lowered : Entry → List Entry → List Entry → Option Worker → StopLoop
lowered e entries passed none = pass e entries passed
lowered e entries passed (some w) =
    let (was, w') = lower_flag w in
    let e' : Entry = record e { worker = some w' } in
    if was
    then record { passed = passed; left = e' ∷ entries; joining = true }
    else pass e' entries passed

abbrev pub rejoined : Entry → List Entry → List Entry → Option Worker → Option StopLoop
rejoined e entries passed none = none
rejoined e entries passed (some w) = some (pass (record e { worker = some w }) entries passed)

-- The next step of the loop; `none` while it waits in a join, and when the loop has ended.
unfoldable pub stop_at : Bool → List Entry → List Entry → Option StopLoop
stop_at joining [] passed = none
stop_at false (e ∷ entries) passed = some (lowered e entries passed e.worker)
stop_at true (e ∷ entries) passed = rejoined e entries passed (bind e.worker join)

abbrev pub stop_step : StopLoop → Option StopLoop
stop_step s = stop_at s.joining s.left s.passed

-- A thread at the head of its `while (running_)` leaves if the flag is down.
abbrev pub leave_worker : Option Worker → Option Worker
leave_worker none = none
leave_worker (some w) = if w.looping && not w.running then some (leave w) else none

abbrev pub with_worker : Entry → List Entry → Option Worker → Option (List Entry)
with_worker e entries none = none
with_worker e entries (some w) = some (record e { worker = some w } ∷ entries)

abbrev pub behind : Entry → Option (List Entry) → Option (List Entry)
behind e none = none
behind e (some entries) = some (e ∷ entries)

unfoldable pub leave_at : ℕ → List Entry → Option (List Entry)
leave_at k [] = none
leave_at zero (e ∷ entries) = with_worker e entries (leave_worker e.worker)
leave_at (suc k) (e ∷ entries) = let rest = leave_at k entries in behind e rest

-- The thread of an entry, which the loop has passed or has not.
abbrev pub passed_leaves : ℕ → StopLoop → Option StopLoop
passed_leaves k s = elim (leave_at k s.passed) [
  | none ↦ none
  | some entries ↦ some (record s { passed = entries })
]

abbrev pub left_leaves : ℕ → StopLoop → Option StopLoop
left_leaves k s = elim (leave_at k s.left) [
  | none ↦ none
  | some entries ↦ some (record s { left = entries })
]
