-- ===== src/WorkerManager/Tests.antt =====
-- Two workers that are stopped (runtime/worker_manager.cpp).
use pipe_ai_rk3588_industria.Prelude.{◌≡◌, refl, true, false, some, List, [], ◌∷◌}
use pipe_ai_rk3588_industria.WorkerManager.Stopping.{
  idle, manager_of, Stops, begins, stops, left_goes, add_all, Ends, Stops-Ends,
}
use pipe_ai_rk3588_industria.WorkerManager.{
  new_manager, healthy, StopLoop, stop_all, stop_at, leave_at,
}
use pipe_ai_rk3588_industria.Text.{Bytes, codes}

abbrev names : List Bytes
names = codes "radar" ∷ codes "imu" ∷ []

-- The flag of the first worker is lowered, its thread leaves, it is joined, and the second flag goes down.
abbrev second_join : StopLoop
second_join = record {
  passed = idle (codes "radar") ∷ [];
  left =
      record {
        name = codes "imu";
        worker = some (record { running = false; joinable = true; looping = true });
      }
      ∷ [];
  joining = true;
}

in_second_join : Stops (stop_all (manager_of names)) 4 second_join
unfolding stop_at leave_at
in_second_join = stops (stops (left_goes 0 (stops begins refl) refl) refl) refl

Stops-Ends_example :
    (add_all names new_manager ≡ some (manager_of names))
    × (healthy (manager_of names) ≡ true)
    × Ends names 4 second_join
Stops-Ends_example = Stops-Ends names in_second_join
