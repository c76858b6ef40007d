-- ===== src/App/Serving.antt =====
-- The states of the running application, and what each step keeps (runtime/application.cpp).
use mathlib.Core.Path.{subst}
use pipe_ai_rk3588_industria.Prelude.{
  ℕ, ◌≡◌, refl, sym, ap, ◌∙◌, inl, inr, Bool, true, false, ◌&&◌, Option, none, some, List, [], ◌∷◌,
  ◌++◌, map, append-nil, append_assoc, if◌then◌else◌, Option-cases, length, drop, drop-append,
  map-append,
}
use pipe_ai_rk3588_industria.Startup.Opening.{say_all-append}
use pipe_ai_rk3588_industria.App.Growth.{turn-Grows, submit-cases, Grows}
use pipe_ai_rk3588_industria.App.{
  Main, reading, submitting, looping, returned, App, stages, result_message, main_step, worker_step,
  entering, loop_message,
}
use pipe_ai_rk3588_industria.Pipeline.Drain.{turn-Reach}
use pipe_ai_rk3588_industria.Pipeline.Order.{Reach, submits, Reach-IsOnCourse}
use pipe_ai_rk3588_industria.Pipeline.Progress.{Turn, turn}
use pipe_ai_rk3588_industria.Engine.{Sdk}
use pipe_ai_rk3588_industria.Sensor.Replay.{to_come, read-to_come}
use pipe_ai_rk3588_industria.Sensor.{Extracted, CsvSensor}
use pipe_ai_rk3588_industria.Startup.{Clock, Journal, say_all, say}
use pipe_ai_rk3588_industria.Logger.{info}
use pipe_ai_rk3588_industria.Types.{RawSample, InferenceResult, radar_channels}
use pipe_ai_rk3588_industria.Text.{Bytes}
use pipe_ai_rk3588_industria.Floats.{Floats}

-- What is added to a list is logged behind the messages for the list; `mark` is one that is not of it.
say_all-grown :
    {A : Type 0} (clock : Clock) (base : Journal) (message : A → Bytes) (old whole new : List A)
    (before mark after : List Bytes) (j : Journal)
    → whole ≡ old ++ new
    → before ++ after ≡ map message old
    → j ≡ say_all clock info (before ++ (mark ++ after)) base
    → (before ++ (after ++ map message new) ≡ map message whole)
      × (say_all clock info (map message (drop (length old) whole)) j
          ≡ say_all clock info (before ++ (mark ++ (after ++ map message new))) base)
say_all-grown clock base message old whole new before mark after j e split h = (
  sym (append_assoc before after (map message new))
      ∙ ap (λ xs. xs ++ map message new) split
      ∙ sym (map-append message old new)
      ∙ ap (map message) (sym e),
  rw (
    e,
    h,
    drop-append old new,
    sym (append_assoc mark after (map message new)),
    sym (append_assoc before (mark ++ after) (map message new)),
    say_all-append clock info (before ++ (mark ++ after)) (map message new) base,
  ),
)

module _ (fl : Floats) (clock : Clock) (opens : Bytes → Bool) (stoull : Bytes → Option (ℕ × ℕ))
    (print : fl.F → Bytes) (take_number : Bytes → Extracted ℕ) (take_float : Bytes → Extracted fl.F)
    (sdk : Option (Sdk fl)) where
  abbrev pub main_turn : App fl → Option (App fl)
  main_turn a = main_step fl clock opens stoull print take_number take_float a.main a

  abbrev pub worker_turn : Turn → App fl → Option (App fl)
  worker_turn = worker_step fl clock opens stoull print sdk

  -- The states that the application comes to, in any order of the main thread and the workers.
  pub data Serves (start : App fl) : App fl → Type 0 where
    begins : {a : App fl} → a ≡ start → Serves start a
    feeds : {a b : App fl} → Serves start a → main_turn a ≡ some b → Serves start b
    works : {a b : App fl} (t : Turn) → Serves start a → worker_turn t a ≡ some b → Serves start b

  abbrev pub coming : CsvSensor → List (RawSample fl)
  coming = to_come fl take_number take_float

  -- The samples that the main thread has still to submit.
  abbrev pub pending : Main fl → List (RawSample fl)
  pending (reading sensor sample) = coming sensor
  pending (submitting sensor sample) = sample ∷ coming sensor
  pending entering = []
  pending looping = []
  pending returned = []

  abbrev pub IsSized : Main fl → Type 0
  IsSized (reading sensor sample) = length sample.radar ≡ radar_channels
  IsSized (submitting sensor sample) = length sample.radar ≡ radar_channels
  IsSized entering = Unit {0}
  IsSized looping = Unit {0}
  IsSized returned = Unit {0}

  abbrev pub Stays : Main fl → Type 0
  Stays returned = ⊥
  Stays _ = Unit {0}

  abbrev pub loop_line : Main fl → List Bytes
  loop_line (reading sensor sample) = []
  loop_line (submitting sensor sample) = []
  loop_line entering = []
  loop_line looping = loop_message fl clock opens stoull print ∷ []
  loop_line returned = loop_message fl clock opens stoull print ∷ []

  abbrev pub message_of : InferenceResult fl → Bytes
  message_of = result_message fl clock opens stoull print

  -- One message for each result, in order; `line`, when it is there, stands between two of them.
  abbrev pub IsLogged : Journal → List Bytes → List (InferenceResult fl) → Journal → Type 0
  IsLogged base line delivered j =
      (before : List Bytes) × (after : List Bytes) × (before ++ after ≡ map message_of delivered)
      × (j ≡ say_all clock info (before ++ (line ++ after)) base)

  module _ (capacity : ℕ) (all : List (RawSample fl)) (base : Journal) where
    abbrev FeedsOn : List (RawSample fl) → Main fl → Type 0
    FeedsOn accepted m = (accepted ++ pending m ≡ all) × IsSized m × Stays m

    pub record IsServing (a : App fl) : Type 0 where
      pub accepted : List (RawSample fl)
      pub reaches : Reach fl (stages fl sdk) capacity accepted a.pipeline
      pub feeding : FeedsOn accepted a.main
      pub awake : a.running ≡ true
      pub logged : IsLogged base (loop_line a.main) a.pipeline.delivered a.journal

    abbrev Kept : Option (App fl) → Type 0
    Kept none = Unit {0}
    Kept (some a) = IsServing a

    read-FeedsOn :
        (accepted : List (RawSample fl)) (ss : List (RawSample fl)) (ok running : Bool)
        (s : RawSample fl) (sensor : CsvSensor)
        → accepted ++ ss ≡ all
        → running ≡ true
        → (ok ≡ true → ss ≡ s ∷ coming sensor)
        → (ok ≡ false → ss ≡ [])
        → length s.radar ≡ radar_channels
        → FeedsOn accepted (if ok && running then submitting sensor s else entering)
    read-FeedsOn accepted ss true running s sensor e on t f size =
        rw on (ap (λ xs. accepted ++ xs) (sym (t refl)) ∙ e, size, tt)
    read-FeedsOn accepted ss false running s sensor e on t f size =
        (ap (λ xs. accepted ++ xs) (sym (f refl)) ∙ e, tt, tt)

    read-loop_line :
        (ok running : Bool) (s : RawSample fl) (sensor : CsvSensor)
        → loop_line (if ok && running then submitting sensor s else entering) ≡ []
    read-loop_line true true s sensor = refl
    read-loop_line true false s sensor = refl
    read-loop_line false running s sensor = refl

    loop-loop_line :
        (running : Bool) → loop_line (if running then looping else returned) ≡ loop_line looping
    loop-loop_line true = refl
    loop-loop_line false = refl

    loop-FeedsOn :
        (accepted : List (RawSample fl)) (running : Bool)
        → running ≡ true
        → accepted ++ [] ≡ all
        → FeedsOn accepted (if running then looping else returned)
    loop-FeedsOn accepted running on e = rw on (e, tt, tt)

    abbrev LoggedAt : App fl → Main fl → Type 0
    LoggedAt a m = IsLogged base (loop_line m) a.pipeline.delivered a.journal

    entered-IsLogged :
        (ds : List (InferenceResult fl)) (j : Journal)
        → IsLogged base [] ds j
        → IsLogged base
            (loop_line looping)
            ds
            (say clock info (loop_message fl clock opens stoull print) j)
    unfolding say_all
    entered-IsLogged ds j (before, after, split, e) = (
      before ++ after,
      [],
      append-nil (before ++ after) ∙ split,
      ap (say clock info (loop_message fl clock opens stoull print)) e
          ∙ sym (
              say_all-append clock info (before ++ after)
                (loop_message fl clock opens stoull print ∷ []) base),
    )

    main-Kept :
        (m : Main fl) (a : App fl)
        → a.main ≡ m
        → IsServing a
        → Kept (main_step fl clock opens stoull print take_number take_float m a)
    unfolding main_step
    main-Kept (reading sensor old) a e h =
        let (whole, size, stay) = subst (FeedsOn h.accepted) e h.feeding in
        let (t, f, size') = read-to_come fl take_number take_float sensor old size in
        record {
          accepted = h.accepted;
          reaches = h.reaches;
          feeding = read-FeedsOn h.accepted (coming sensor) _ a.running _ _ whole h.awake t f size';
          awake = h.awake;
          logged =
              subst (λ l. IsLogged base l a.pipeline.delivered a.journal)
                (sym (read-loop_line _ a.running _ _)) (subst (LoggedAt a) e h.logged);
        }
    main-Kept (submitting sensor s) a e h =
        let (whole, size, stay) = subst (FeedsOn h.accepted) e h.feeding in
        let open_now = (Reach-IsOnCourse fl (stages fl sdk) capacity h.reaches).0 in
        elim (submit-cases fl (stages fl sdk) s a.pipeline open_now) [
          | inl waits ↦ rw waits tt
          | inr (q, e', same) ↦ rw e' (record {
            accepted = h.accepted ++ (s ∷ []);
            reaches = submits s h.reaches e' refl;
            feeding = (append_assoc h.accepted (s ∷ []) (coming sensor) ∙ whole, size, tt);
            awake = h.awake;
            logged =
                subst (λ ds. IsLogged base [] ds a.journal) (sym same)
                  (subst (LoggedAt a) e h.logged);
          })
        ]
    main-Kept entering a e h =
        let (whole, size, stay) = subst (FeedsOn h.accepted) e h.feeding in
        record {
          accepted = h.accepted;
          reaches = h.reaches;
          feeding = (whole, tt, tt);
          awake = h.awake;
          logged = entered-IsLogged a.pipeline.delivered a.journal (subst (LoggedAt a) e h.logged);
        }
    main-Kept looping a e h =
        let (whole, size, stay) = subst (FeedsOn h.accepted) e h.feeding in
        record {
          accepted = h.accepted;
          reaches = h.reaches;
          feeding = loop-FeedsOn h.accepted a.running h.awake whole;
          awake = h.awake;
          logged =
              subst (λ l. IsLogged base l a.pipeline.delivered a.journal)
                (sym (loop-loop_line a.running)) (subst (LoggedAt a) e h.logged);
        }
    main-Kept returned a e h = tt

    worker-Kept : (t : Turn) (a : App fl) → IsServing a → Kept (worker_turn t a)
    unfolding worker_step
    worker-Kept t a h = elim (Option-cases (turn fl (stages fl sdk) t a.pipeline)) [
      | inl e ↦ rw e tt
      | inr (p, e) ↦
          let (new, grown) =
            subst (Grows fl (stages fl sdk) a.pipeline) e
              (turn-Grows fl (stages fl sdk) t a.pipeline) in
          let (before, after, split, was) = h.logged in
          let (split', now) =
            say_all-grown clock base message_of a.pipeline.delivered p.delivered new before
              (loop_line a.main) after a.journal grown split was in
          rw e (record {
            accepted = h.accepted;
            reaches = turn-Reach fl (stages fl sdk) capacity t h.reaches e;
            feeding = h.feeding;
            awake = h.awake;
            logged = (before, after ++ map message_of new, split', now);
          })
    ]

    pub Serves-IsServing : {start a : App fl} → IsServing start → Serves start a → IsServing a
    Serves-IsServing h (begins e) = subst IsServing (sym e) h
    Serves-IsServing h (feeds {a} s e) =
        subst Kept e (main-Kept a.main a refl (Serves-IsServing h s))
    Serves-IsServing h (works {a} t s e) = subst Kept e (worker-Kept t a (Serves-IsServing h s))
