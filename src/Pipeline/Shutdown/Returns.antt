-- ===== src/Pipeline/Shutdown/Returns.antt =====
-- `stop` returns, and what it leaves behind (pipeline/pipeline.cpp and pipeline/worker.cpp).
use pipe_ai_rk3588_industria.Prelude.{
  ℕ, ◌+◌, ◌≤◌, ◌≡◌, refl, sym, ap, ◌≢◌, ◌⊎◌, inl, inr, ◌∷◌, ◌++◌, Bool, true, false, none, some,
  List, [], arith, if◌then◌else◌,
}
use mathlib.Core.Path.{subst}
use pipe_ai_rk3588_industria.Floats.{Floats}
use pipe_ai_rk3588_industria.Types.{RawSample}
use pipe_ai_rk3588_industria.Queue.{Queue, emplace_impl}
use pipe_ai_rk3588_industria.Pipeline.{Stages, submit, started}
use pipe_ai_rk3588_industria.Pipeline.Shutdown.{
  Runtime, Actor, preprocessor, inferrer, poster, stopper, act, stop_step, queues_shut, stopped,
  on_submit, preprocess_go, inference_go, post_go, Runs, begins, submits, acts, launched,
}
use pipe_ai_rk3588_industria.Pipeline.Shutdown.Turns.{
  is_awaited, steps_left, preprocess_stage, inference_stage, post_stage, remaining, IsClosing,
}
use pipe_ai_rk3588_industria.Pipeline.Shutdown.Ends.{act-Takes, awaited_enabled}
use pipe_ai_rk3588_industria.Pipeline.Shutdown.Threads.{
  Inv, preprocess_go-Inv, inference_go-Inv, post_go-Inv, stop_step-Inv,
}

module _ (fl : Floats) (st : Stages fl) where
  act-Inv :
      (ss : List (RawSample fl)) (a : Actor) (rt rt' : Runtime fl)
      → Inv fl ss rt
      → act fl st a rt ≡ some rt'
      → Inv fl ss rt'
  act-Inv ss preprocessor rt rt' v h = preprocess_go-Inv fl st ss rt rt' v h
  act-Inv ss inferrer rt rt' v h = inference_go-Inv fl st ss rt rt' v h
  act-Inv ss poster rt rt' v h = post_go-Inv fl st ss rt rt' v h
  act-Inv ss stopper rt rt' v h = stop_step-Inv fl st ss rt.phase rt rt' refl v h

  submit-Inv :
      (ss : List (RawSample fl)) (s : RawSample fl) (done : Bool) (rt rt' : Runtime fl)
      → Inv fl ss rt
      → on_submit fl rt (submit fl s rt.pipeline) ≡ some (done, rt')
      → Inv fl (if done then ss ++ (s ∷ []) else ss) rt'
  unfolding submit emplace_impl
  submit-Inv ss s done rt rt' v h = ground arith

  Runs-Inv :
      {capacity : ℕ} {ss : List (RawSample fl)} {rt : Runtime fl}
      → Runs fl st capacity ss rt
      → Inv fl ss rt
  unfolding launched started
  Runs-Inv (begins e) = ground arith
  Runs-Inv (submits {ss = ss} {rt = rt} {rt' = rt'} s done r h e) =
      subst (λ l. Inv fl l rt') (sym e) (submit-Inv ss s done rt rt' (Runs-Inv r) h)
  Runs-Inv (acts {ss = ss} {rt = rt} {rt' = rt'} a r h) = act-Inv ss a rt rt' (Runs-Inv r) h

  Inv-IsClosing :
      (ss : List (RawSample fl)) (rt : Runtime fl)
      → Inv fl ss rt
      → steps_left rt.phase ≤ 6
      → IsClosing fl rt
  Inv-IsClosing ss rt v k = record {
    shut = record {
      raw_closed = v.raw_by (omega (arith, k));
      tensor_closed = v.tensor_by (omega (arith, k));
      result_closed = v.result_by k;
    };
    preprocess_down = λ g. (v.first.down g).0;
    inference_down = λ g. (v.second.down g).0;
    post_down = λ g. (v.third.down g).0;
    closed_phase = k;
  }

  -- A piece of a schedule, in which any actor may go on and any samples be submitted. The number counts
  -- the turns of `stop`, and of the thread for which `stop` was waiting.
  pub data Goes (rt : Runtime fl) : ℕ → Runtime fl → Type 0 where
    rests : Goes rt 0 rt
    turns :
        {n m : ℕ} {from to : Runtime fl} (a : Actor)
        → Goes rt n from
        → act fl st a from ≡ some to
        → m ≡ n + (if is_awaited from.phase a then 1 else 0)
        → Goes rt m to
    feeds :
        {n : ℕ} {from to : Runtime fl} (s : RawSample fl) (done : Bool)
        → Goes rt n from
        → on_submit fl from (submit fl s from.pipeline) ≡ some (done, to)
        → Goes rt n to

  submit_closing :
      (s : RawSample fl) (done : Bool) (rt rt' : Runtime fl)
      → IsClosing fl rt
      → on_submit fl rt (submit fl s rt.pipeline) ≡ some (done, rt')
      → rt ≡ rt'
  unfolding submit emplace_impl
  submit_closing s done rt rt' c h = ground arith

  Goes-remaining :
      {rt rt' : Runtime fl} {n : ℕ}
      → IsClosing fl rt
      → Goes rt n rt'
      → IsClosing fl rt' × (remaining fl rt' + n ≤ remaining fl rt)
  Goes-remaining c rests = (c, omega arith)
  Goes-remaining c (turns {from = from} {to = to} a g h e) =
      let (d, less) = Goes-remaining c g in
      let (d', less') = act-Takes fl st a from to d h in (d', omega (arith, less, less', e))
  Goes-remaining {rt} c (feeds {n = n} {from = from} {to = to} s done g h) =
      subst (λ z. IsClosing fl z × (remaining fl z + n ≤ remaining fl rt))
        (submit_closing s done from to (Goes-remaining c g).0 h) (Goes-remaining c g)

  -- `stop` returns. From any moment at which it has closed the three queues, in whatever order the
  -- threads are scheduled and whatever is still submitted, `stop` and the thread that it waits for take
  -- at most a number of turns that is known at that moment; and as long as `stop` has not returned, it
  -- or that thread can go on.
  pub Runs-stop_returns :
      {capacity : ℕ} {ss : List (RawSample fl)} {rt rt' : Runtime fl} {n : ℕ}
      → Runs fl st capacity ss rt
      → steps_left rt.phase ≤ steps_left queues_shut
      → Goes rt n rt'
      → (n ≤ remaining fl rt)
        × (rt'.phase ≢ stopped
            → (a : Actor) × (is_awaited rt'.phase a ≡ true) × (act fl st a rt' ≢ none))
  Runs-stop_returns {rt} {rt'} r k g =
      let (c, bound) = Goes-remaining (Inv-IsClosing _ rt (Runs-Inv r) k) g in
      (omega (arith, bound), λ open_. awaited_enabled fl st rt'.phase rt' refl c.shut open_)

  nobody :
      (rt : Runtime fl)
      → rt.phase ≡ stopped
      → rt.preprocess_thread.looping ≡ false
      → rt.inference_thread.looping ≡ false
      → rt.post_thread.looping ≡ false
      → (a : Actor) → act fl st a rt ≡ none
  unfolding preprocess_go inference_go post_go stop_step
  nobody rt e one two three preprocessor = ground arith
  nobody rt e one two three inferrer = ground arith
  nobody rt e one two three poster = ground arith
  nobody rt e one two three stopper = ground arith

  drained {ℓ κ} :
      {A : Type ℓ} {P : Type κ} (q : Queue A)
      → ((q.closed ≡ true) × (q.items ≡ [])) ⊎ P
      → (q.items ≡ []) ⊎ P
  drained q (inl (shut, empty)) = inl empty
  drained q (inr p) = inr p

  -- When `stop` has returned, the three queues are closed, every thread has left its loop, and no thread
  -- can go on. Each worker has emptied its queue, unless it never took anything from it, as a thread
  -- does that is first scheduled when its flag is down: then the first queue still has all the
  -- samples that were accepted, or no window was given a number, or no result was delivered.
  pub Runs-stopped :
      {capacity : ℕ} {ss : List (RawSample fl)} {rt : Runtime fl}
      → Runs fl st capacity ss rt
      → rt.phase ≡ stopped
      → ((rt.pipeline.raw_queue.closed ≡ true)
          × ((rt.pipeline.raw_queue.items ≡ [])
              ⊎ ((rt.pipeline.raw_queue.items ≡ ss) × (rt.pipeline.window_buffer ≡ []))))
        × ((rt.pipeline.tensor_queue.closed ≡ true)
            × ((rt.pipeline.tensor_queue.items ≡ []) ⊎ (rt.pipeline.window_id ≡ 0)))
        × ((rt.pipeline.result_queue.closed ≡ true)
            × ((rt.pipeline.result_queue.items ≡ []) ⊎ (rt.pipeline.delivered ≡ [])))
        × (rt.preprocess_thread.looping ≡ false)
        × (rt.inference_thread.looping ≡ false)
        × (rt.post_thread.looping ≡ false)
        × ((a : Actor) → act fl st a rt ≡ none)
  Runs-stopped {rt} r e =
      let v = Runs-Inv r in
      let one = v.first.gone (ap preprocess_stage e) in
      let two = v.second.gone (ap inference_stage e) in
      let three = v.third.gone (ap post_stage e) in
      (
        (
          v.raw_by (omega (arith, ap steps_left e)),
          drained rt.pipeline.raw_queue (v.spent.raw_spent (v.first.left one)),
        ),
        (
          v.tensor_by (omega (arith, ap steps_left e)),
          drained rt.pipeline.tensor_queue (v.spent.tensor_spent (v.second.left two)),
        ),
        (
          v.result_by (omega (arith, ap steps_left e)),
          drained rt.pipeline.result_queue (v.spent.result_spent (v.third.left three)),
        ),
        one,
        two,
        three,
        nobody rt e one two three,
      )
