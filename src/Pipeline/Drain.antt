-- ===== src/Pipeline/Drain.antt =====
-- Left to themselves the workers deliver everything (pipeline/pipeline.cpp).
use pipe_ai_rk3588_industria.Prelude.{ℕ, zero, suc, ◌+◌, ◌≤◌, ◌<◌, ◌≡◌, true, some, List, arith}
use pipe_ai_rk3588_industria.Floats.{Floats}
use pipe_ai_rk3588_industria.Types.{RawSample}
use pipe_ai_rk3588_industria.Queue.{emplace_impl}
use pipe_ai_rk3588_industria.Pipeline.{Stages, Pipeline, submit, started}
use pipe_ai_rk3588_industria.Pipeline.Steps.{expected}
use pipe_ai_rk3588_industria.Pipeline.Order.{
  Reach, begins, submits, preprocesses, infers, posts, Reach-IsOnCourse, Reach-delivers, IsIdle,
}
use pipe_ai_rk3588_industria.Pipeline.Progress.{
  Turn, preprocess_turn, inference_turn, post_turn, turn, work, AllWait, HasRoom, post_stuck,
  inference_stuck, preprocess_stuck, turn-Keeps, turn-HasRoom,
}

module _ (fl : Floats) (st : Stages fl) where
  -- As many turns of the workers as the number says, of any workers in any order.
  pub data Works (p : Pipeline fl) : ℕ → Pipeline fl → Type 0 where
    rests : Works p zero p
    goes :
        {n : ℕ} {q r : Pipeline fl} (t : Turn)
        → Works p n q
        → turn fl st t q ≡ some r
        → Works p (suc n) r

  module _ (capacity : ℕ) where
    submit-HasRoom :
        (s : RawSample fl) (p q : Pipeline fl)
        → HasRoom fl st p
        → submit fl s p ≡ some (true, q)
        → HasRoom fl st q
    unfolding submit emplace_impl
    submit-HasRoom s p q r h = ground arith

    Reach-HasRoom :
        {ss : List (RawSample fl)} {p : Pipeline fl}
        → 0 < capacity
        → Reach fl st capacity ss p
        → HasRoom fl st p
    unfolding started
    Reach-HasRoom c (begins e) = rw e (c, c)
    Reach-HasRoom c (submits s r h e) = submit-HasRoom s _ _ (Reach-HasRoom c r) h
    Reach-HasRoom c (preprocesses r h) =
        turn-HasRoom fl st preprocess_turn _ _ (Reach-IsOnCourse fl st capacity r).0 h
          (Reach-HasRoom c r)
    Reach-HasRoom c (infers r h) =
        turn-HasRoom fl st inference_turn _ _ (Reach-IsOnCourse fl st capacity r).0 h
          (Reach-HasRoom c r)
    Reach-HasRoom c (posts r h) =
        turn-HasRoom fl st post_turn _ _ (Reach-IsOnCourse fl st capacity r).0 h (Reach-HasRoom c r)

    pub turn-Reach :
        {ss : List (RawSample fl)} {p q : Pipeline fl} (t : Turn)
        → Reach fl st capacity ss p
        → turn fl st t p ≡ some q
        → Reach fl st capacity ss q
    turn-Reach preprocess_turn r h = preprocesses r h
    turn-Reach inference_turn r h = infers r h
    turn-Reach post_turn r h = posts r h

    Works-Reach :
        {ss : List (RawSample fl)} {p q : Pipeline fl} {n : ℕ}
        → Reach fl st capacity ss p
        → Works p n q
        → Reach fl st capacity ss q × (work fl st q + n ≤ work fl st p)
    Works-Reach r rests = (r, omega arith)
    Works-Reach r (goes {n} {q} {r = q'} t w h) =
        let (s, bound) = Works-Reach r w in
        let less = (turn-Keeps fl st t q q' (Reach-IsOnCourse fl st capacity s).0 h).1 in
        (turn-Reach t s h, omega (arith, bound, less))

    AllWait-IsIdle : (p : Pipeline fl) → HasRoom fl st p → AllWait fl st p → IsIdle fl st capacity p
    AllWait-IsIdle p (tensor_room, result_room) h =
        let result = post_stuck fl st p (h post_turn) in
        let (tensor, holds) = inference_stuck fl st p result_room result (h inference_turn) in
        let (raw, held) = preprocess_stuck fl st p tensor_room tensor (h preprocess_turn) in
        record {
          raw_empty = raw;
          tensor_empty = tensor;
          result_empty = result;
          preprocess_holds_none = held;
          inference_holds_none = holds;
        }

    -- No deadlock, and no worker runs for ever: when no more samples are submitted to a started
    -- pipeline with a capacity that is not zero, the workers take a bounded number of turns, in
    -- whatever order they are scheduled, and when all of them wait, every result that one thread would
    -- compute from the accepted samples has been delivered.
    pub Reach-drains :
        {ss : List (RawSample fl)} {p q : Pipeline fl} {n : ℕ}
        → 0 < capacity
        → Reach fl st capacity ss p
        → Works p n q
        → (n ≤ work fl st p) × (AllWait fl st q → q.delivered ≡ expected fl st ss)
    Reach-drains {ss} {p} {q} c r w =
        let (s, bound) = Works-Reach r w in
        (
          omega (arith, bound),
          λ h. (Reach-delivers fl st capacity s).1 (AllWait-IsIdle q (Reach-HasRoom c s) h),
        )
