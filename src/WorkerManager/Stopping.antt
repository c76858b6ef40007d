-- ===== src/WorkerManager/Stopping.antt =====
-- The stop of all workers, with their threads among its steps (runtime/worker_manager.cpp).

use mathlib.Core.Path.{subst}
use pipe_ai_rk3588_industria.Prelude.{
  ℕ, zero, suc, ◌+◌, ◌*◌, ◌<◌, ◌≡◌, refl, sym, ap, ◌∙◌, ◌⊎◌, inl, inr, Bool, true, false, Option,
  none, some, List, [], ◌∷◌, ◌++◌, map, append-nil, append_assoc, arith, ◌==◌, if◌then◌else◌,
  length, length-append, bind, map-append,
}
use pipe_ai_rk3588_industria.WorkerManager.{
  Entry, WorkerManager, new_manager, add, healthy, healthy_from, StopLoop, stop_all, stop_step,
  stop_at, leave_at, passed_leaves, left_leaves,
}
use pipe_ai_rk3588_industria.Worker.{new_worker, start}
use pipe_ai_rk3588_industria.Text.{Bytes}

-- An entry with a running worker, one whose flag is down while its thread is, or is not, in its loop,
-- and one whose worker has been joined.
abbrev pub working : Bytes → Entry
working name = record {
  name = name;
  worker = some (record { running = true; joinable = true; looping = true });
}

abbrev halting : Bool → Bytes → Entry
halting b name = record {
  name = name;
  worker = some (record { running = false; joinable = true; looping = b });
}

abbrev pub idle : Bytes → Entry
idle name = record { name = name; worker = some new_worker }

-- `add` for each name in turn.
abbrev pub extend : WorkerManager → Option (Bool × WorkerManager) → Option WorkerManager
extend m none = none
extend m (some (ok, m')) = if ok then some m' else some m

unfoldable pub add_all : List Bytes → WorkerManager → Option WorkerManager
add_all [] m = some m
add_all (name ∷ names) m = bind (extend m (add name m)) (add_all names)

add_all-working :
    (names : List Bytes) (m : WorkerManager)
    → add_all names m ≡ some (record { workers = m.workers ++ map working names })
unfolding add_all add start
add_all-working [] m = rw (append-nil m.workers)
add_all-working (name ∷ names) m =
    add_all-working names (record { workers = m.workers ++ (working name ∷ []) })
    ∙ ap (λ es. some (record { workers = es }))
        (append_assoc m.workers (working name ∷ []) (map working names))

-- Where the loop stands after `n` steps of its own and of the threads.
pub data Stops (start : StopLoop) : ℕ → StopLoop → Type 0 where
  begins : Stops start 0 start
  stops : {n : ℕ} {s t : StopLoop} → Stops start n s → stop_step s ≡ some t → Stops start (suc n) t
  passed_goes :
      {n : ℕ} {s t : StopLoop} (k : ℕ)
      → Stops start n s
      → passed_leaves k s ≡ some t
      → Stops start (suc n) t
  left_goes :
      {n : ℕ} {s t : StopLoop} (k : ℕ)
      → Stops start n s
      → left_leaves k s ≡ some t
      → Stops start (suc n) t

abbrev between : List Bytes → List Bytes → StopLoop
between ps ns = record { passed = map idle ps; left = map working ns; joining = false }

abbrev awaiting : List Bytes → Bool → Bytes → List Bytes → StopLoop
awaiting ps b name ns = record {
  passed = map idle ps;
  left = halting b name ∷ map working ns;
  joining = true;
}

abbrev Between : List Bytes → ℕ → StopLoop → Type 0
Between names n s =
    (ps : List Bytes) × (ns : List Bytes) × (ps ++ ns ≡ names)
    × (n ≡ 3 * length ps)
    × (s ≡ between ps ns)

abbrev Awaiting : List Bytes → ℕ → StopLoop → Type 0
Awaiting names n s =
    (ps : List Bytes) × (name : Bytes) × (ns : List Bytes) × (b : Bool) × (ps ++ (name ∷ ns)
      ≡ names)
    × (n ≡ 3 * length ps + (if b then 1 else 2))
    × (s ≡ awaiting ps b name ns)

abbrev IsCourse : List Bytes → ℕ → StopLoop → Type 0
IsCourse names n s = Between names n s ⊎ Awaiting names n s

abbrev Kept : List Bytes → ℕ → Option StopLoop → Type 0
Kept names n none = Unit {0}
Kept names n (some s) = IsCourse names n s

idle-stays : (k : ℕ) (ps : List Bytes) → leave_at k (map idle ps) ≡ none
unfolding leave_at
idle-stays k [] = refl
idle-stays zero (p ∷ ps) = refl
idle-stays (suc k) (p ∷ ps) = rw (idle-stays k ps)

working-stays : (k : ℕ) (ns : List Bytes) → leave_at k (map working ns) ≡ none
unfolding leave_at
working-stays k [] = refl
working-stays zero (n ∷ ns) = refl
working-stays (suc k) (n ∷ ns) = rw (working-stays k ns)

between-stop :
    (names ps ns : List Bytes) (n : ℕ)
    → ps ++ ns ≡ names
    → n ≡ 3 * length ps
    → Kept names (suc n) (stop_step (between ps ns))
unfolding stop_at
between-stop names ps [] n e c = tt
between-stop names ps (name ∷ ns) n e c = inr (ps, name, ns, true, e, omega arith, refl)

awaiting-stop :
    (names ps : List Bytes) (name : Bytes) (ns : List Bytes) (b : Bool) (n : ℕ)
    → ps ++ (name ∷ ns) ≡ names
    → n ≡ 3 * length ps + (if b then 1 else 2)
    → Kept names (suc n) (stop_step (awaiting ps b name ns))
unfolding stop_at
awaiting-stop names ps name ns true n e c = tt
awaiting-stop names ps name ns false n e c = inl (
  ps ++ (name ∷ []),
  ns,
  append_assoc ps (name ∷ []) ns ∙ e,
  rw (length-append ps (name ∷ [])) (omega arith),
  ap (λ es. record { passed = es; left = map working ns; joining = false })
      (sym (map-append idle ps (name ∷ []))),
)

awaiting-leave :
    (names ps : List Bytes) (name : Bytes) (ns : List Bytes) (b : Bool) (n k : ℕ)
    → ps ++ (name ∷ ns) ≡ names
    → n ≡ 3 * length ps + (if b then 1 else 2)
    → Kept names (suc n) (left_leaves k (awaiting ps b name ns))
unfolding leave_at
awaiting-leave names ps name ns true n zero e c = inr (ps, name, ns, false, e, omega arith, refl)
awaiting-leave names ps name ns false n zero e c = tt
awaiting-leave names ps name ns b n (suc k) e c = rw (Kept, working-stays k ns) tt

passed-leave :
    (names ps : List Bytes) (s : StopLoop) (n k : ℕ)
    → s.passed ≡ map idle ps
    → Kept names n (passed_leaves k s)
passed-leave names ps s n k e = rw (Kept, e, idle-stays k ps) tt

between-leave : (names ps ns : List Bytes) (n k : ℕ) → Kept names n (left_leaves k (between ps ns))
between-leave names ps ns n k = rw (Kept, working-stays k ns) tt

stop-Kept :
    (names : List Bytes) (n : ℕ) (s : StopLoop)
    → IsCourse names n s
    → Kept names (suc n) (stop_step s)
stop-Kept names n s (inl (ps, ns, e, c, at)) =
    subst (λ t. Kept names (suc n) (stop_step t)) (sym at) (between-stop names ps ns n e c)
stop-Kept names n s (inr (ps, name, ns, b, e, c, at)) =
    subst (λ t. Kept names (suc n) (stop_step t)) (sym at) (awaiting-stop names ps name ns b n e c)

left-Kept :
    (names : List Bytes) (n k : ℕ) (s : StopLoop)
    → IsCourse names n s
    → Kept names (suc n) (left_leaves k s)
left-Kept names n k s (inl (ps, ns, e, c, at)) =
    subst (λ t. Kept names (suc n) (left_leaves k t)) (sym at) (between-leave names ps ns _ k)
left-Kept names n k s (inr (ps, name, ns, b, e, c, at)) =
    subst (λ t. Kept names (suc n) (left_leaves k t)) (sym at)
      (awaiting-leave names ps name ns b n k e c)

passed-Kept :
    (names : List Bytes) (n k : ℕ) (s : StopLoop)
    → IsCourse names n s
    → Kept names (suc n) (passed_leaves k s)
passed-Kept names n k s (inl (ps, ns, e, c, at)) =
    passed-leave names ps s _ k (ap (λ t. t.passed) at)
passed-Kept names n k s (inr (ps, name, ns, b, e, c, at)) =
    passed-leave names ps s _ k (ap (λ t. t.passed) at)

Stops-IsCourse :
    (names : List Bytes) {n : ℕ} {s : StopLoop}
    → Stops (stop_all (record { workers = map working names })) n s
    → IsCourse names n s
Stops-IsCourse names begins = inl ([], names, refl, refl, refl)
Stops-IsCourse names (stops h e) =
    subst (Kept names _) e (stop-Kept names _ _ (Stops-IsCourse names h))
Stops-IsCourse names (passed_goes k h e) =
    subst (Kept names _) e (passed-Kept names _ k _ (Stops-IsCourse names h))
Stops-IsCourse names (left_goes k h e) =
    subst (Kept names _) e (left-Kept names _ k _ (Stops-IsCourse names h))

working-healthy : (names : List Bytes) → healthy_from (map working names) ≡ true
unfolding healthy_from
working-healthy [] = refl
working-healthy (n ∷ names) = working-healthy names

idle-healthy : (names : List Bytes) → healthy_from (map idle names) ≡ (length names == 0)
unfolding healthy_from
idle-healthy [] = refl
idle-healthy (n ∷ names) = ground arith

-- The workers of the loop's list are all joined.
abbrev pub AllJoined : List Bytes → List Entry → Type 0
AllJoined names entries = entries ≡ map idle names

abbrev pub GoesOn : StopLoop → Type 0
GoesOn s = (t : StopLoop) × ((stop_step s ≡ some t) ⊎ (left_leaves 0 s ≡ some t))

-- The loop has ended, every worker joined, or it or the thread that it waits for can go on.
abbrev pub Ends : List Bytes → ℕ → StopLoop → Type 0
Ends names n s =
    ((s.left ≡ [])
      × AllJoined names s.passed
      × (healthy_from s.passed ≡ (length names == 0))
      × (n ≡ 3 * length names))
    ⊎ ((n < 3 * length names) × GoesOn s)

between-Ends :
    (names ps ns : List Bytes) (n : ℕ)
    → ps ++ ns ≡ names
    → n ≡ 3 * length ps
    → Ends names n (between ps ns)
unfolding stop_at
between-Ends names ps [] n e c =
    let same = sym (append-nil ps) ∙ e in
    inl (
      refl,
      ap (map idle) same,
      ap (λ xs. healthy_from (map idle xs)) same ∙ idle-healthy names,
      c ∙ ap (λ xs. 3 * length xs) same,
    )
between-Ends names ps (name ∷ ns) n e c =
    inr
      (rw (sym e, length-append ps (name ∷ ns)) (omega arith), (awaiting ps true name ns, inl refl))

awaiting-Ends :
    (names ps : List Bytes) (name : Bytes) (ns : List Bytes) (b : Bool) (n : ℕ)
    → ps ++ (name ∷ ns) ≡ names
    → n ≡ 3 * length ps + (if b then 1 else 2)
    → Ends names n (awaiting ps b name ns)
unfolding stop_at leave_at
awaiting-Ends names ps name ns true n e c =
    inr (
      rw (sym e, length-append ps (name ∷ ns)) (omega arith),
      (awaiting ps false name ns, inr refl),
    )
awaiting-Ends names ps name ns false n e c =
    inr (rw (sym e, length-append ps (name ∷ ns)) (omega arith), (_, inl refl))

course-Ends : (names : List Bytes) (n : ℕ) (s : StopLoop) → IsCourse names n s → Ends names n s
course-Ends names n s (inl (ps, ns, e, c, at)) =
    subst (Ends names n) (sym at) (between-Ends names ps ns n e c)
course-Ends names n s (inr (ps, name, ns, b, e, c, at)) =
    subst (Ends names n) (sym at) (awaiting-Ends names ps name ns b n e c)

-- A manager to which workers of these names were added.
abbrev pub manager_of : List Bytes → WorkerManager
manager_of names = record { workers = map working names }

-- Workers are added one after the other to a new manager: each `add` succeeds, and the manager is
-- healthy. When `stop_all` then runs, in every order of its steps and those of the threads, each of
-- which is at the head of its loop again and again, it has ended with every worker joined and in its
-- place, after three steps for each of them, and the manager is then healthy only if it has no worker;
-- or fewer steps were done, and it, or the thread in whose join it is, can go on.
pub Stops-Ends :
    (names : List Bytes) {n : ℕ} {s : StopLoop}
    → Stops (stop_all (manager_of names)) n s
    → (add_all names new_manager ≡ some (manager_of names))
      × (healthy (manager_of names) ≡ true)
      × Ends names n s
Stops-Ends names {n} {s} h = (
  add_all-working names new_manager,
  working-healthy names,
  course-Ends names n s (Stops-IsCourse names h),
)
