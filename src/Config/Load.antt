-- ===== src/Config/Load.antt =====
-- The values of a configuration that was written line by line (runtime/config.cpp).
use pipe_ai_rk3588_industria.Prelude.{
  ℕ, suc, ◌+◌, ◌-◌, ◌≡◌, refl, sym, ap, ◌∙◌, ◌≢◌, inl, inr, true, false, ◌&&◌, Option, none, some,
  List, [], ◌∷◌, ◌++◌, map, arith, ◌==◌, if◌then◌else◌, Bool-cases, length, length-append, take,
  All,
}
use pipe_ai_rk3588_industria.Text.{Bytes, is_empty, trim_end, same_bytes, same_bytes_iff}
use pipe_ai_rk3588_industria.Status.{success}
use pipe_ai_rk3588_industria.Config.{
  Values, find, put, trim, is_space, is_ignored, front_is, back_is, inner, equals, split_eq,
  full_key, load_line, load_lines, load,
}

pub data Line : Type 0 where
  opens : Bytes → Line
  sets : Bytes → Bytes → Line

abbrev pub write_line : Line → Bytes
write_line (opens section) = 91 ∷ (section ++ (93 ∷ []))
write_line (sets key value) = key ++ (equals ∷ value)

abbrev pub IsTrimmed : Bytes → Type 0
IsTrimmed [] = Unit {0}
IsTrimmed (c ∷ cs) = (is_space c ≡ false) × (trim_end is_space cs ≡ cs)

abbrev pub IsBefore : Bytes → Type 0
IsBefore [] = Unit {0}
IsBefore (c ∷ cs) = ((c == equals) ≡ false) × IsBefore cs

-- A section's name and a key are not empty; a key has no `=`, and does not begin like a comment or
-- a section.
abbrev pub Fits : Line → Type 0
Fits (opens section) = (section ≢ []) × IsTrimmed section
Fits (sets key value) =
    (is_ignored key ≡ false)
    × (front_is 91 key ≡ false)
    × IsTrimmed key
    × IsBefore key
    × IsTrimmed value

-- The value that the last line for a key gives it; `found` is that of the lines before.
unfoldable pub assigned : Bytes → Bytes → Option Bytes → List Line → Option Bytes
assigned section key found [] = found
assigned section key found (opens name ∷ lines) = assigned name key found lines
assigned section key found (sets k v ∷ lines) =
    assigned section key (if same_bytes key (full_key section k) then some v else found) lines

find-put :
    (key k v : Bytes) (values : Values)
    → find key (put k v values) ≡ (if same_bytes key k then some v else find key values)
unfolding find put
find-put key k v [] = refl
find-put key k v ((k', v') ∷ values) = elim (Bool-cases (same_bytes k k')) [
  | inl same ↦
      let e : k ≡ k' = (same_bytes_iff k k').0 same in
      rw same (elim (Bool-cases (same_bytes key k')) [
        | inl hit ↦ rw (hit, e, hit)
        | inr miss ↦ rw (miss, e, miss)
      ])
  | inr other ↦ rw other (elim (Bool-cases (same_bytes key k')) [
    | inr miss ↦ rw miss (find-put key k v values)
    | inl hit ↦ rw hit (elim (Bool-cases (same_bytes key k)) [
      | inr miss ↦ rw miss
      | inl both ↦
          let e : k ≡ k' = sym ((same_bytes_iff key k).0 both) ∙ (same_bytes_iff key k').0 hit in
          let same : same_bytes k k' ≡ true = (same_bytes_iff k k').1 e in ground arith
    ])
  ])
]

is_empty-append : (a b : Bytes) (c : ℕ) → is_empty (a ++ (c ∷ b)) ≡ false
is_empty-append [] b c = refl
is_empty-append (x ∷ a) b c = refl

trim_end-append :
    (a b : Bytes) (c : ℕ)
    → is_space c ≡ false
    → trim_end is_space b ≡ b
    → trim_end is_space (a ++ (c ∷ b)) ≡ a ++ (c ∷ b)
trim_end-append [] b c s e = rw (e, s)
trim_end-append (x ∷ a) b c s e =
    rw (trim_end-append a b c s e, is_empty-append a b c)
      (elim (Bool-cases (is_space x)) [ inl b ↦ rw b | inr b ↦ rw b ])

split_eq-append :
    (key value : Bytes) → IsBefore key → split_eq (key ++ (equals ∷ value)) ≡ some (key, value)
unfolding split_eq
split_eq-append [] value h = refl
split_eq-append (c ∷ key) value (n, h) = rw (n, split_eq-append key value h)

trim-IsTrimmed : (s : Bytes) → IsTrimmed s → trim s ≡ s
trim-IsTrimmed [] h = refl
trim-IsTrimmed (c ∷ cs) (s, e) = rw s (trim_end-append [] cs c s e)

trim_end-IsTrimmed : (s : Bytes) → IsTrimmed s → trim_end is_space s ≡ s
trim_end-IsTrimmed [] h = refl
trim_end-IsTrimmed (c ∷ cs) (s, e) = trim_end-append [] cs c s e

trim-sets :
    (key value : Bytes)
    → IsTrimmed key
    → is_ignored key ≡ false
    → IsTrimmed value
    → trim (key ++ (equals ∷ value)) ≡ key ++ (equals ∷ value)
trim-sets [] value h i t = ground (arith, i)
trim-sets (c ∷ cs) value (s, e) i t =
    rw s (trim_end-append (c ∷ cs) value equals refl (trim_end-IsTrimmed value t))

load_line-sets :
    (section key value : Bytes) (n : ℕ) (values : Values)
    → Fits (sets key value)
    → load_line section n (trim (key ++ (equals ∷ value))) values
      ≡ (success, section, put (full_key section key) value values)
unfolding load_line
load_line-sets section [] value n values (i, f, t, b, w) = ground (arith, i)
load_line-sets section (c ∷ cs) value n values (i, f, t, b, w) = rw (
  trim-sets (c ∷ cs) value t i w,
  i,
  f,
  split_eq-append (c ∷ cs) value b,
  trim-IsTrimmed (c ∷ cs) t,
  trim-IsTrimmed value w,
)

take-length : (a b : Bytes) → take (length a) (a ++ b) ≡ a
take-length [] b = refl
take-length (x ∷ a) b = ap (◌∷◌ x) (take-length a b)

back_is-append : (a : Bytes) (c : ℕ) → back_is c (a ++ (c ∷ [])) ≡ (c == c)
back_is-append [] c = refl
back_is-append (x ∷ a) c = rw (is_empty-append a [] c) (back_is-append a c)

load_line-section :
    (section line name : Bytes) (n : ℕ) (values : Values)
    → is_ignored line ≡ false
    → (front_is 91 line && back_is 93 line) ≡ true
    → trim (inner line) ≡ name
    → is_empty name ≡ false
    → load_line section n line values ≡ (success, name, values)
unfolding load_line
load_line-section section line name n values i b t e = rw (i, b, t, e)

inner-append : (a : Bytes) (b c : ℕ) → inner (b ∷ (a ++ (c ∷ []))) ≡ a
inner-append a b c =
    let e : suc (length (a ++ (c ∷ []))) - 2 ≡ length a = omega (arith, length-append a (c ∷ [])) in
    ap (λ m. take m (a ++ (c ∷ []))) e ∙ take-length a (c ∷ [])

load_line-opens :
    (section name : Bytes) (n : ℕ) (values : Values)
    → Fits (opens name)
    → load_line section n (trim (write_line (opens name))) values ≡ (success, name, values)
load_line-opens section [] n values (ne, t) = elim (ne refl) [ ]
load_line-opens section (c ∷ cs) n values (ne, t) =
    let line : Bytes = 91 ∷ ((c ∷ cs) ++ (93 ∷ [])) in
    let whole : trim line ≡ line = trim_end-append (91 ∷ (c ∷ cs)) [] 93 refl refl in
    ap (λ l. load_line section n l values) whole
    ∙ load_line-section section line (c ∷ cs) n values refl (back_is-append (91 ∷ (c ∷ cs)) 93)
        (ap trim (inner-append (c ∷ cs) 91 93) ∙ trim-IsTrimmed (c ∷ cs) t) refl

assigned-load :
    (lines : List Line) (section : Bytes) (n : ℕ) (values : Values)
    → All Fits lines
    → let (status, result) = load_lines section n (map write_line lines) values in
      (status ≡ success)
      × ((key : Bytes) → find key result ≡ assigned section key (find key values) lines)
unfolding load_lines assigned
assigned-load [] section n values h = (refl, λ key. refl)
assigned-load (opens name ∷ lines) section n values (fits, h) =
    rw (load_line-opens section name (n + 1) values fits)
      (assigned-load lines name (n + 1) values h)
assigned-load (sets k v ∷ lines) section n values (fits, h) =
    let values' = put (full_key section k) v values in
    let (ok, same) = assigned-load lines section (n + 1) values' h in
    rw (load_line-sets section k v (n + 1) values fits) (
      ok,
      λ key.
          same key
          ∙ ap (λ f. assigned section key f lines) (find-put key (full_key section k) v values),
    )

-- A file of well-formed lines, sections and `key=value` pairs, loads without an error, whatever was
-- loaded before; afterwards each key has the value of the last line that sets it, under the name
-- `section.key` if the line stands in a section, and no other key has a value.
pub load-assigned :
    (path : Bytes) (lines : List Line) (before : Values)
    → All Fits lines
    → let (status, values) = load path (some (map write_line lines)) before in
      (status ≡ success) × ((key : Bytes) → find key values ≡ assigned [] key none lines)
unfolding load find
load-assigned path lines before h = assigned-load lines [] 0 [] h
