-- ===== src/Logger/Lines.antt =====
-- The lines that a sequence of calls of `log` writes (runtime/logger.cpp).
use pipe_ai_rk3588_industria.Prelude.{
  ◌≡◌, refl, sym, ap, ◌∙◌, inl, inr, Bool, true, false, not, ◌&&◌, Option, none, some, List, [],
  ◌∷◌, ◌++◌, append-nil, append_assoc, arith, ltb, if◌then◌else◌, Bool-cases,
}
use pipe_ai_rk3588_industria.Text.{Bytes, same_bytes}
use pipe_ai_rk3588_industria.Logger.{
  LogLevel, rank, Logger, Entry, line_of, is_error, to_console, to_file, log, log_all,
}

abbrev pub lines_with : (Entry → Bool) → List Entry → List Bytes
lines_with p [] = []
lines_with p (e ∷ entries) =
    let rest = lines_with p entries in if p e then line_of e ∷ rest else rest

-- What a logger with that level writes.
abbrev pub passes : LogLevel → Entry → Bool
passes level e = not (ltb (rank e.level) (rank level))

abbrev pub to_cout : LogLevel → Entry → Bool
to_cout level e = passes level e && not (is_error e.level)

abbrev pub to_cerr : LogLevel → Entry → Bool
to_cerr level e = passes level e && is_error e.level

-- What goes to the file with path `q` when the open file is as given.
abbrev pub is_at : Option Bytes → Bytes → Bool
is_at none q = false
is_at (some path) q = same_bytes path q

abbrev pub goes_to : Option Bytes → LogLevel → Bytes → Entry → Bool
goes_to file level q e = passes level e && is_at file q

abbrev one_if : Bool → Entry → List Bytes
one_if true e = line_of e ∷ []
one_if false e = []

settings_kept :
    (e : Entry) (l : Logger) → ((log e l).min_level ≡ l.min_level) × ((log e l).file ≡ l.file)
unfolding log
settings_kept e l = ground arith

-- `log` once its tests are known: below the level, an error, and the open file.
abbrev logged : Bool → Bool → Option Bytes → Entry → Logger → Logger
logged below err file e l =
    if below then l else to_file (line_of e) file (to_console err (line_of e) l)

cout-logged :
    (below err : Bool) (file : Option Bytes) (e : Entry) (l : Logger)
    → (logged below err file e l).cout ≡ l.cout ++ one_if (not below && not err) e
cout-logged true err file e l = sym (append-nil l.cout)
cout-logged false true none e l = sym (append-nil l.cout)
cout-logged false true (some p) e l = sym (append-nil l.cout)
cout-logged false false none e l = refl
cout-logged false false (some p) e l = refl

cerr-logged :
    (below err : Bool) (file : Option Bytes) (e : Entry) (l : Logger)
    → (logged below err file e l).cerr ≡ l.cerr ++ one_if (not below && err) e
cerr-logged true err file e l = sym (append-nil l.cerr)
cerr-logged false true none e l = refl
cerr-logged false true (some p) e l = refl
cerr-logged false false none e l = sym (append-nil l.cerr)
cerr-logged false false (some p) e l = sym (append-nil l.cerr)

appended :
    (found : Bool) (e : Entry) (xs : List Bytes)
    → (if found then xs ++ (line_of e ∷ []) else xs) ≡ xs ++ one_if found e
appended true e xs = refl
appended false e xs = sym (append-nil xs)

contents-logged :
    (below err : Bool) (file : Option Bytes) (e : Entry) (l : Logger) (q : Bytes)
    → (logged below err file e l).contents q ≡ l.contents q ++ one_if (not below && is_at file q) e
contents-logged true err file e l q = sym (append-nil (l.contents q))
contents-logged false true none e l q = sym (append-nil (l.contents q))
contents-logged false false none e l q = sym (append-nil (l.contents q))
contents-logged false true (some p) e l q = appended (same_bytes p q) e (l.contents q)
contents-logged false false (some p) e l q = appended (same_bytes p q) e (l.contents q)

log-logged :
    (e : Entry) (l : Logger)
    → log e l ≡ logged (ltb (rank e.level) (rank l.min_level)) (is_error e.level) l.file e l
unfolding log
log-logged e l = refl

lines_step :
    (p p' : Entry → Bool) (e : Entry) (entries : List Entry) (xs xs' : List Bytes)
    → p' ≡ p
    → xs' ≡ xs ++ one_if (p e) e
    → xs' ++ lines_with p' entries ≡ xs ++ lines_with p (e ∷ entries)
lines_step p p' e entries xs xs' hp hx = elim (Bool-cases (p e)) [
  | inl t ↦ rw (hp, hx, t) (append_assoc xs (line_of e ∷ []) (lines_with p entries))
  | inr f ↦ rw (hp, hx, f) (append_assoc xs [] (lines_with p entries))
]

-- Calls of `log` one after the other leave the level and the open file as they are. They add
-- to the standard output the lines of the entries at or above the level that are no errors, to the
-- standard error those of the errors, and to the file that is open, and no other, the lines of
-- all entries at or above the level: in the order of the calls, and each once.
pub log_all-lines :
    (entries : List Entry) (l : Logger)
    → ((log_all entries l).min_level ≡ l.min_level)
      × ((log_all entries l).file ≡ l.file)
      × ((log_all entries l).cout ≡ l.cout ++ lines_with (to_cout l.min_level) entries)
      × ((log_all entries l).cerr ≡ l.cerr ++ lines_with (to_cerr l.min_level) entries)
      × ((q : Bytes)
          → (log_all entries l).contents q
            ≡ l.contents q ++ lines_with (goes_to l.file l.min_level q) entries)
unfolding log_all log
log_all-lines [] l = (
  refl,
  refl,
  sym (append-nil l.cout),
  sym (append-nil l.cerr),
  λ q. sym (append-nil (l.contents q)),
)
log_all-lines (e ∷ entries) l =
    let (a, b, c, d, f) = log_all-lines entries (log e l) in
    let (level, file) = settings_kept e l in
    (
      a ∙ level,
      b ∙ file,
      c
          ∙ lines_step _ _ e entries l.cout _ (ap to_cout level)
              (ap (λ m. m.cout) (log-logged e l) ∙ cout-logged _ _ l.file e l),
      d
          ∙ lines_step _ _ e entries l.cerr _ (ap to_cerr level)
              (ap (λ m. m.cerr) (log-logged e l) ∙ cerr-logged _ _ l.file e l),
      λ q.
          f q
          ∙ lines_step (goes_to l.file l.min_level q) _ e entries (l.contents q) _
              (rw (level, file))
              (ap (λ m. m.contents q) (log-logged e l) ∙ contents-logged _ _ l.file e l q),
    )
