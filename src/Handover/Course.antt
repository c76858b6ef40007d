-- ===== src/Handover/Course.antt =====
-- How the threads of the queue's test go on, in every order (tests/test_blocking_queue.cpp).
use mathlib.Core.Path.{subst}
use pipe_ai_rk3588_industria.Prelude.{
  ℕ, suc, ◌+◌, ◌*◌, ◌<◌, ◌≡◌, refl, sym, ap, ◌∙◌, ◌⊎◌, inl, inr, Bool, true, false, Option, none,
  some, List, [], ◌∷◌, ◌++◌, append-nil, append_assoc, arith, ltb, ◌==◌, Bool-cases, length,
  length-append,
}
use pipe_ai_rk3588_industria.Handover.{
  pushing, joining, Handover, producer_step, consumer_step, new_handover,
}
use pipe_ai_rk3588_industria.Queue.{returns, push, pop, emplace_impl, create}

-- The states after `n` steps of the two threads.
pub data Plays (start : Handover) : ℕ → Handover → Type 0 where
  begins : Plays start 0 start
  produces :
      {n : ℕ} {h k : Handover}
      → Plays start n h
      → producer_step h.producer h ≡ some k
      → Plays start (suc n) k
  consumes :
      {n : ℕ} {h k : Handover} → Plays start n h → consumer_step h ≡ some k → Plays start (suc n) k

abbrev pub GoesOn : Handover → Type 0
GoesOn h = (k : Handover) × ((producer_step h.producer h ≡ some k) ⊎ (consumer_step h ≡ some k))

-- Both threads are through, with these values handed over, and the queue refuses and has nothing.
abbrev pub IsOver : List ℕ → Handover → Type 0
IsOver values h =
    (h.finished ≡ true)
    × (h.producer ≡ joining)
    × (h.consumed ≡ values)
    × ((v : ℕ) → push v h.queue ≡ returns (false, h.queue))
    × (pop h.queue ≡ returns (none, h.queue))

abbrev pub Ends : List ℕ → ℕ → Handover → Type 0
Ends values n h =
    (IsOver values h × (n ≡ 2 * length values + 2)) ⊎ ((n < 2 * length values + 2) × GoesOn h)

module _ (capacity : ℕ) (room : 0 < capacity) (all : List ℕ) where
  abbrev open_at : List ℕ → List ℕ → List ℕ → Handover
  open_at consumed items values = record {
    queue = record { capacity = capacity; items = items; closed = false };
    producer = pushing values;
    consumed = consumed;
    finished = false;
    failed = false;
  }

  abbrev shut_at : Bool → List ℕ → List ℕ → Handover
  shut_at finished consumed items = record {
    queue = record { capacity = capacity; items = items; closed = true };
    producer = joining;
    consumed = consumed;
    finished = finished;
    failed = false;
  }

  abbrev IsOpen : ℕ → Handover → Type 0
  IsOpen n h =
      (consumed : List ℕ) × (items : List ℕ) × (values : List ℕ) × (consumed ++ (items ++ values)
        ≡ all)
      × (n ≡ 2 * length consumed + length items)
      × (h ≡ open_at consumed items values)

  abbrev IsShut : ℕ → Handover → Type 0
  IsShut n h =
      (consumed : List ℕ) × (items : List ℕ) × (consumed ++ items ≡ all)
      × (n ≡ 2 * length consumed + length items + 1)
      × (h ≡ shut_at false consumed items)

  abbrev IsCourse : ℕ → Handover → Type 0
  IsCourse n h = IsOpen n h ⊎ IsShut n h ⊎ ((n ≡ 2 * length all + 2) × (h ≡ shut_at true all []))

  abbrev Kept : ℕ → Option Handover → Type 0
  Kept n none = Unit {0}
  Kept n (some h) = IsCourse n h

  open-produce :
      (consumed items values : List ℕ) (n : ℕ)
      → consumed ++ (items ++ values) ≡ all
      → n ≡ 2 * length consumed + length items
      → Kept (suc n) (producer_step (pushing values) (open_at consumed items values))
  unfolding producer_step emplace_impl
  open-produce consumed items [] n e c = inr (
      inl (
        consumed,
        items,
        ap (λ xs. consumed ++ xs) (sym (append-nil items)) ∙ e,
        omega (arith, c),
        refl,
      ))
  open-produce consumed items (v ∷ values) n e c = elim (Bool-cases (ltb (length items) capacity)) [
    | inl t ↦ rw t (
        inl (
          consumed,
          items ++ (v ∷ []),
          values,
          ap (λ xs. consumed ++ xs) (append_assoc items (v ∷ []) values) ∙ e,
          omega (arith, c, length-append items (v ∷ [])),
          refl,
        ))
    | inr f ↦ rw f tt
  ]

  open-consume :
      (consumed items values : List ℕ) (n : ℕ)
      → consumed ++ (items ++ values) ≡ all
      → n ≡ 2 * length consumed + length items
      → Kept (suc n) (consumer_step (open_at consumed items values))
  unfolding consumer_step pop
  open-consume consumed [] values n e c = tt
  open-consume consumed (x ∷ items) values n e c = inl (
    consumed ++ (x ∷ []),
    items,
    values,
    append_assoc consumed (x ∷ []) (items ++ values) ∙ e,
    omega (arith, c, length-append consumed (x ∷ [])),
    refl,
  )

  shut-consume :
      (consumed items : List ℕ) (n : ℕ)
      → consumed ++ items ≡ all
      → n ≡ 2 * length consumed + length items + 1
      → Kept (suc n) (consumer_step (shut_at false consumed items))
  unfolding consumer_step pop
  shut-consume consumed [] n e c =
      let same = sym (append-nil consumed) ∙ e in
      inr (inr (omega (arith, c, ap length same), ap (λ xs. shut_at true xs []) same))
  shut-consume consumed (x ∷ items) n e c = inr (
      inl (
        consumed ++ (x ∷ []),
        items,
        append_assoc consumed (x ∷ []) items ∙ e,
        omega (arith, c, length-append consumed (x ∷ [])),
        refl,
      ))

  produce-Kept : (n : ℕ) (h : Handover) → IsCourse n h → Kept (suc n) (producer_step h.producer h)
  unfolding producer_step
  produce-Kept n h (inl (consumed, items, values, e, c, at)) =
      subst (λ k. Kept (suc n) (producer_step k.producer k)) (sym at)
        (open-produce consumed items values n e c)
  produce-Kept n h (inr (inl (consumed, items, e, c, at))) =
      subst (λ k. Kept (suc n) (producer_step k.producer k)) (sym at) tt
  produce-Kept n h (inr (inr (c, at))) =
      subst (λ k. Kept (suc n) (producer_step k.producer k)) (sym at) tt

  consume-Kept : (n : ℕ) (h : Handover) → IsCourse n h → Kept (suc n) (consumer_step h)
  unfolding consumer_step
  consume-Kept n h (inl (consumed, items, values, e, c, at)) =
      subst (λ k. Kept (suc n) (consumer_step k)) (sym at)
        (open-consume consumed items values n e c)
  consume-Kept n h (inr (inl (consumed, items, e, c, at))) =
      subst (λ k. Kept (suc n) (consumer_step k)) (sym at) (shut-consume consumed items n e c)
  consume-Kept n h (inr (inr (c, at))) = subst (λ k. Kept (suc n) (consumer_step k)) (sym at) tt

  Plays-IsCourse : {n : ℕ} {h : Handover} → Plays (new_handover capacity all) n h → IsCourse n h
  Plays-IsCourse begins = inl ([], [], all, refl, refl, refl)
  Plays-IsCourse (produces p e) = subst (Kept _) e (produce-Kept _ _ (Plays-IsCourse p))
  Plays-IsCourse (consumes p e) = subst (Kept _) e (consume-Kept _ _ (Plays-IsCourse p))

  -- On an open queue the consumer goes on when there is a value, and the producer when there is none.
  open-GoesOn : (consumed items values : List ℕ) → GoesOn (open_at consumed items values)
  unfolding producer_step consumer_step emplace_impl pop
  open-GoesOn consumed (x ∷ items) values = (_, inr refl)
  open-GoesOn consumed [] [] = (_, inl refl)
  open-GoesOn consumed [] (v ∷ values) =
      let empty : ltb 0 capacity ≡ true = ground arith in
      (open_at consumed (v ∷ []) values, inl (rw empty refl))

  shut-GoesOn : (consumed items : List ℕ) → GoesOn (shut_at false consumed items)
  unfolding consumer_step pop
  shut-GoesOn consumed [] = (_, inr refl)
  shut-GoesOn consumed (x ∷ items) = (_, inr refl)

  open-Ends :
      (consumed items values : List ℕ) (n : ℕ)
      → consumed ++ (items ++ values) ≡ all
      → n ≡ 2 * length consumed + length items
      → Ends all n (open_at consumed items values)
  open-Ends consumed items values n e c = inr (
    omega (
      arith,
      c,
      ap length e,
      length-append consumed (items ++ values),
      length-append items values,
    ),
    open-GoesOn consumed items values,
  )

  shut-Ends :
      (consumed items : List ℕ) (n : ℕ)
      → consumed ++ items ≡ all
      → n ≡ 2 * length consumed + length items + 1
      → Ends all n (shut_at false consumed items)
  shut-Ends consumed items n e c =
      inr (omega (arith, c, ap length e, length-append consumed items), shut-GoesOn consumed items)

  over-Ends : (n : ℕ) → n ≡ 2 * length all + 2 → Ends all n (shut_at true all [])
  unfolding emplace_impl pop
  over-Ends n c = inl ((refl, refl, refl, λ v. refl, refl), c)

  course-Ends : (n : ℕ) (h : Handover) → IsCourse n h → (h.failed ≡ false) × Ends all n h
  course-Ends n h (inl (consumed, items, values, e, c, at)) =
      subst (λ k. (k.failed ≡ false) × Ends all n k) (sym at)
        (refl, open-Ends consumed items values n e c)
  course-Ends n h (inr (inl (consumed, items, e, c, at))) =
      subst (λ k. (k.failed ≡ false) × Ends all n k) (sym at) (refl, shut-Ends consumed items n e c)
  course-Ends n h (inr (inr (c, at))) =
      subst (λ k. (k.failed ≡ false) × Ends all n k) (sym at) (refl, over-Ends n c)

  -- The queue's constructor accepts a capacity above 0. In every order of the two threads' steps, no
  -- push fails an `assert`, and either both threads are through, the consumer has all the values in
  -- their order, and the closed queue refuses a push and has nothing for a pop, after two steps for
  -- each value and two more; or fewer steps were done, and one of the threads can go on.
  pub Plays-Ends :
      {n : ℕ} {h : Handover}
      → Plays (new_handover capacity all) n h
      → (create capacity ≡ some (new_handover capacity all).queue)
        × (h.failed ≡ false)
        × Ends all n h
  unfolding create
  Plays-Ends {n} {h} p =
      let at : (capacity == 0) ≡ false = ground arith in
      let (sound, ends) = course-Ends n h (Plays-IsCourse p) in (rw at refl, sound, ends)
