-- ===== src/Handover/Tests.antt =====
-- Two values through a queue of one place (tests/test_blocking_queue.cpp).
use pipe_ai_rk3588_industria.Prelude.{◌≡◌, refl, false, some, [], ◌∷◌, arith}
use pipe_ai_rk3588_industria.Handover.Course.{Plays, begins, produces, consumes, Ends, Plays-Ends}
use pipe_ai_rk3588_industria.Handover.{
  Handover, new_handover, pushing, producer_step, consumer_step,
}
use pipe_ai_rk3588_industria.Queue.{create, emplace_impl, pop}

-- The first value was pushed and popped, and the second pushed.
abbrev second_pushed : Handover
second_pushed = record (new_handover 1 (5 ∷ 6 ∷ [])) {
  queue = record { capacity = 1; items = 6 ∷ []; closed = false };
  producer = pushing [];
  consumed = 5 ∷ [];
}

to_second : Plays (new_handover 1 (5 ∷ 6 ∷ [])) 3 second_pushed
unfolding producer_step consumer_step emplace_impl pop
to_second = produces (consumes (produces begins refl) refl) refl

Plays-Ends_example :
    (create 1 ≡ some (new_handover 1 (5 ∷ 6 ∷ [])).queue)
    × (second_pushed.failed ≡ false)
    × Ends (5 ∷ 6 ∷ []) 3 second_pushed
Plays-Ends_example = Plays-Ends 1 (omega arith) (5 ∷ 6 ∷ []) to_second
