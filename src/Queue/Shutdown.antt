-- ===== src/Queue/Shutdown.antt =====
-- Who waits, and what `close` does (pipeline/blocking_queue.hpp).
use pipe_ai_rk3588_industria.Prelude.{
  ℕ, zero, suc, ◌≤◌, ◌<◌, ◌≡◌, refl, ◌∙◌, ◌≢◌, ◌↔◌, true, false, List, [], ◌∷◌, arith, length, drop,
  drop-nil,
}
use pipe_ai_rk3588_industria.Queue.{
  Queue, waits, Call, calls_push, calls_push_for, calls_pop, calls_pop_for, calls_close, execute,
  run, accepts, push, pop, close, emplace_impl, Event, accepted, refused, delivered, nothing,
  asleep, shut,
}

module _ {ℓ} {A : Type ℓ} where
  -- A push goes to sleep exactly on an open queue that is full, a pop exactly on an open queue that
  -- is empty; so while the capacity is not zero, the two never sleep in one state of the queue.
  waits_iff :
      (v : A) (q : Queue A)
      → ((push v q ≡ waits) ↔ ((q.closed ≡ false) × (q.capacity ≤ length q.items)))
        × ((pop q ≡ waits) ↔ ((q.closed ≡ false) × (q.items ≡ [])))
        × (0 < q.capacity → push v q ≡ waits → pop q ≢ waits)
  unfolding emplace_impl pop
  waits_iff v q = ground arith

  -- Closed for good: every later call finishes, and no later call adds a value.
  abbrev pub NoneAsleep : List (Event A) → Type 0
  NoneAsleep [] = Unit {0}
  NoneAsleep (asleep ∷ es) = ⊥
  NoneAsleep (accepted v ∷ es) = NoneAsleep es
  NoneAsleep (refused v ∷ es) = NoneAsleep es
  NoneAsleep (delivered v ∷ es) = NoneAsleep es
  NoneAsleep (nothing ∷ es) = NoneAsleep es
  NoneAsleep (shut ∷ es) = NoneAsleep es

  execute_closed :
      (c : Call A) (q : Queue A) (es : List (Event A))
      → q.closed ≡ true
      → NoneAsleep es
      → ((execute c q).1.closed ≡ true)
        × (accepts ((execute c q).0 ∷ es) ≡ accepts es)
        × NoneAsleep ((execute c q).0 ∷ es)
  unfolding execute
  execute_closed (calls_push v) q es h k = ground arith
  execute_closed (calls_push_for v b) q es h k = ground arith
  execute_closed calls_pop q es h k = ground arith
  execute_closed (calls_pop_for b) q es h k = ground arith
  execute_closed calls_close q es h k = ground arith

  run_closed_from :
      (cs : List (Call A)) (q : Queue A)
      → q.closed ≡ true
      → NoneAsleep (run cs q).0 × (accepts (run cs q).0 ≡ []) × ((run cs q).1.closed ≡ true)
  unfolding run
  run_closed_from [] q h = (tt, refl, h)
  run_closed_from (c ∷ cs) q h =
      let start = execute_closed c q [] h tt in
      let (awake, no_more, still) = run_closed_from cs (execute c q).1 start.0 in
      let first = execute_closed c q (run cs (execute c q).1).0 h awake in
      (first.2, first.1 ∙ no_more, still)

  -- Once `close` has run, no call of any later sequence goes to sleep, none adds a value, and the
  -- queue stays closed.
  pub run_closed :
      (cs : List (Call A)) (q : Queue A)
      → NoneAsleep (run cs (close q)).0
        × (accepts (run cs (close q)).0 ≡ [])
        × ((run cs (close q)).1.closed ≡ true)
  unfolding close
  run_closed cs q = run_closed_from cs (close q) refl

  abbrev pub pops : ℕ → List (Call A)
  pops zero = []
  pops (suc n) = calls_pop ∷ pops n

  -- The values in order, and then no value any more.
  abbrev pub drained : List A → ℕ → List (Event A)
  drained xs zero = []
  drained [] (suc n) = nothing ∷ drained [] n
  drained (x ∷ xs) (suc n) = delivered x ∷ drained xs n

  run-pops :
      (n : ℕ) (xs : List A) (q : Queue A)
      → q.items ≡ xs
      → q.closed ≡ true
      → ((run (pops n) q).0 ≡ drained xs n) × ((run (pops n) q).1.items ≡ drop n xs)
  unfolding run execute
  run-pops zero xs q e h = (refl, e)
  run-pops (suc n) [] q e h = ground (arith, run-pops n [] q e h, drop-nil {A = A} n)
  run-pops (suc n) (x ∷ xs) q e h = ground (arith, run-pops n xs (record q { items = xs }) refl h)

  -- What was queued when `close` ran can still be taken: the next pops deliver exactly those values,
  -- oldest first, and every pop after them reports that there is no value.
  pops_drain :
      (n : ℕ) (q : Queue A)
      → ((run (pops n) (close q)).0 ≡ drained q.items n)
        × ((run (pops n) (close q)).1.items ≡ drop n q.items)
  unfolding close
  pops_drain n q = run-pops n q.items (close q) refl refl
