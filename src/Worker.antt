-- ===== src/Worker.antt =====
-- A worker's flag and thread: pipeline/worker.cpp.
-- `stop` is two steps, the exchange of the flag and the join, since others run in between.
use pipe_ai_rk3588_industria.Prelude.{Bool, true, false, not, Option, none, some, if◌then◌else◌}

pub record Worker : Type 0 where
  pub running : Bool
  -- `thread_.joinable()`, and whether that thread is still in its `while (running_)`.
  pub joinable : Bool
  pub looping : Bool

abbrev pub new_worker : Worker
new_worker = record { running = false; joinable = false; looping = false }

-- `none` is `std::terminate`: the assignment to a `std::thread` that has not been joined.
unfoldable pub start : Worker → Option (Bool × Worker)
start w =
    if w.running
    then some (false, w)
    else if w.joinable
    then none
    else some (true, record { running = true; joinable = true; looping = true })

-- `running_.exchange(false)`, with the value before.
abbrev pub lower_flag : Worker → Bool × Worker
lower_flag w = (w.running, record w { running = false })

-- The thread finds the flag down.
abbrev pub leave : Worker → Worker
leave w = record w { looping = false }

-- `if (thread_.joinable()) thread_.join();`, where `none` waits.
abbrev pub join : Worker → Option Worker
join w =
    if not w.joinable
    then some w
    else if w.looping
    then none
    else some (record w { joinable = false })
