-- ===== src/Queue/Fifo.antt =====
-- Order and bound of the queue, over every sequence of calls (pipeline/blocking_queue.hpp).
use pipe_ai_rk3588_industria.Prelude.{
  ℕ, ◌≤◌, ◌≡◌, refl, sym, ap, ◌∙◌, ◌↔◌, none, some, List, [], ◌∷◌, ◌++◌, append-nil, append_assoc,
  arith, length, length-append,
}
use pipe_ai_rk3588_industria.Queue.{
  Queue, Call, calls_push, calls_push_for, calls_pop, calls_pop_for, calls_close, create, execute,
  run, accepts, deliveries, Event, accepted, refused, delivered,
}

module _ {ℓ} {A : Type ℓ} where
  execute_fifo :
      (c : Call A) (q : Queue A)
      → q.items ++ accepts ((execute c q).0 ∷ [])
        ≡ deliveries ((execute c q).0 ∷ []) ++ (execute c q).1.items
  unfolding execute
  execute_fifo (calls_push v) q = ground (arith, append-nil q.items)
  execute_fifo (calls_push_for v b) q = ground (arith, append-nil q.items)
  execute_fifo calls_pop q = ground (arith, append-nil q.items)
  execute_fifo (calls_pop_for b) q = ground (arith, append-nil q.items)
  execute_fifo calls_close q = append-nil q.items

  accepts-cons :
      (e : Event A) (es : List (Event A)) → accepts (e ∷ es) ≡ accepts (e ∷ []) ++ accepts es
  accepts-cons (accepted v) es = refl
  accepts-cons (refused v) es = refl
  accepts-cons _ es = refl

  deliveries-cons :
      (e : Event A) (es : List (Event A))
      → deliveries (e ∷ es) ≡ deliveries (e ∷ []) ++ deliveries es
  deliveries-cons (delivered v) es = refl
  deliveries-cons (refused v) es = refl
  deliveries-cons _ es = refl

  -- First in, first out, nothing lost, repeated or made up: over any sequence of calls, what was
  -- queued before followed by the values accepted is the values delivered followed by what is
  -- queued after.
  pub run_fifo :
      (cs : List (Call A)) (q : Queue A)
      → q.items ++ accepts (run cs q).0 ≡ deliveries (run cs q).0 ++ (run cs q).1.items
  unfolding run
  run_fifo [] q = append-nil q.items
  run_fifo (c ∷ cs) q =
      let (e, q') = execute c q in
      let es = (run cs q').0 in
      rw (accepts-cons e es, deliveries-cons e es)
        (sym (append_assoc q.items _ _)
          ∙ ap (λ l. l ++ accepts es) (execute_fifo c q)
          ∙ append_assoc _ q'.items _
          ∙ ap (◌++◌ (deliveries (e ∷ []))) (run_fifo cs q')
          ∙ sym (append_assoc (deliveries (e ∷ [])) (deliveries es) (run cs q').1.items))

  execute_bounded :
      (c : Call A) (q : Queue A)
      → length q.items ≤ q.capacity
      → (length (execute c q).1.items ≤ (execute c q).1.capacity)
        × ((execute c q).1.capacity ≡ q.capacity)
  unfolding execute
  execute_bounded (calls_push v) q h = ground (arith, length-append q.items (v ∷ []))
  execute_bounded (calls_push_for v b) q h = ground (arith, length-append q.items (v ∷ []))
  execute_bounded calls_pop q h = ground arith
  execute_bounded (calls_pop_for b) q h = ground arith
  execute_bounded calls_close q h = ground arith

  run_bounded :
      (cs : List (Call A)) (q : Queue A)
      → length q.items ≤ q.capacity
      → (length (run cs q).1.items ≤ q.capacity) × ((run cs q).1.capacity ≡ q.capacity)
  unfolding run
  run_bounded [] q h = (h, refl)
  run_bounded (c ∷ cs) q h =
      let (fits, same) = execute_bounded c q h in
      let (fits', same') = run_bounded cs (execute c q).1 fits in (rw same at fits', same' ∙ same)

  -- The constructor refuses the capacity zero, and no other; a queue made with a capacity never holds
  -- more than that many values, whatever calls are made on it.
  pub create_bounded :
      (capacity : ℕ) (cs : List (Call A))
      → ((create {A = A} capacity ≡ none) ↔ (capacity ≡ 0))
        × ((q : Queue A) → create capacity ≡ some q → length (run cs q).1.items ≤ capacity)
  unfolding create
  create_bounded capacity cs = (
    (λ e. ground arith, λ e. ground arith),
    λ q e.
        let made : (length q.items ≤ q.capacity) × (q.capacity ≡ capacity) =
          (ground arith, ground arith) in
        omega (arith, run_bounded cs q made.0, made.1),
  )
