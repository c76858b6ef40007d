-- ===== src/Config.antt =====
-- The configuration file: runtime/config.cpp.
-- The file is what `std::getline` gives, line by line, or nothing that opens. `std::stoi`,
-- `std::stoull` and `std::stof` are parameters: nothing if they throw, or the value with the number of
-- characters that they took.
pub mod Load
pub mod Tests
use Prim.Native.String.{String}
use pipe_ai_rk3588_industria.Prelude.{
  ℕ, ◌+◌, ◌-◌, Bool, true, false, not, ◌&&◌, ◌||◌, Option, none, some, List, [], ◌∷◌, ◌++◌, map,
  leb, ◌==◌, if◌then◌else◌, length, take, drop,
}
use pipe_ai_rk3588_industria.Text.{Bytes, codes, is_empty, trim_by, same_bytes, to_string}
use pipe_ai_rk3588_industria.Status.{Status, is_ok, success, failure, parse_error, io_error}

-- `std::isspace` in the C locale.
abbrev pub is_space : ℕ → Bool
is_space c = (c == 32) || (leb 9 c && leb c 13)

abbrev pub trim : Bytes → Bytes
trim = trim_by is_space

-- `values_`: a key occurs at most once.
abbrev pub Values : Type 0
Values = List (Bytes × Bytes)

unfoldable pub find : Bytes → Values → Option Bytes
find key [] = none
find key ((k, v) ∷ values) = let rest = find key values in if same_bytes key k then some v else rest

-- `values_[key] = value`.
unfoldable pub put : Bytes → Bytes → Values → Values
put key value [] = (key, value) ∷ []
put key value ((k, v) ∷ values) =
    let rest = put key value values in
    if same_bytes key k then (k, value) ∷ values else (k, v) ∷ rest

abbrev pub back_is : ℕ → Bytes → Bool
back_is c [] = false
back_is c (x ∷ xs) = let rest = back_is c xs in if is_empty xs then x == c else rest

-- `line[0] == '#' || line[0] == ';'`, behind the test for an empty line.
abbrev pub is_ignored : Bytes → Bool
is_ignored [] = true
is_ignored (c ∷ cs) = (c == 35) || (c == 59)

abbrev pub front_is : ℕ → Bytes → Bool
front_is c [] = false
front_is c (x ∷ xs) = x == c

-- `line.substr(1, line.size() - 2)`.
abbrev pub inner : Bytes → Bytes
inner line = take (length line - 2) (drop 1 line)

abbrev pub equals : ℕ
equals = 61

abbrev pub longer : ℕ → Option (Bytes × Bytes) → Option (Bytes × Bytes)
longer c none = none
longer c (some (k, v)) = some (c ∷ k, v)

-- What stands before and behind the first `=`.
unfoldable pub split_eq : Bytes → Option (Bytes × Bytes)
split_eq [] = none
split_eq (c ∷ cs) = let rest = longer c (split_eq cs) in if c == equals then some ([], cs) else rest

abbrev pub at_line : String → ℕ → Status
at_line what line_no = failure parse_error (codes what ++ to_string line_no)

abbrev pub full_key : Bytes → Bytes → Bytes
full_key section key = if not (is_empty section) then section ++ (46 ∷ key) else key

-- Behind the test for a section: `key=value`.
abbrev pub load_pair : Bytes → ℕ → Option (Bytes × Bytes) → Values → Status × Bytes × Values
load_pair section line_no none values =
    (at_line "expected key=value at line " line_no, section, values)
load_pair section line_no (some (k, v)) values =
    if is_empty (trim k)
    then (at_line "empty key at line " line_no, section, values)
    else (success, section, put (full_key section (trim k)) (trim v) values)

-- One line, trimmed: the status, and the section and the values after it.
unfoldable pub load_line : Bytes → ℕ → Bytes → Values → Status × Bytes × Values
load_line section line_no line values =
    if is_ignored line
    then (success, section, values)
    else if front_is 91 line && back_is 93 line
    then if is_empty (trim (inner line))
      then (at_line "empty section at line " line_no, [], values)
      else (success, trim (inner line), values)
    else load_pair section line_no (split_eq line) values

-- The loop; `line_no` is the number of the line before.
unfoldable pub load_lines : Bytes → ℕ → List Bytes → Values → Status × Values
load_lines section line_no [] values = (success, values)
load_lines section line_no (l ∷ lines) values =
    let (status, section', values') = load_line section (line_no + 1) (trim l) values in
    let rest = load_lines section' (line_no + 1) lines values' in
    if is_ok status then rest else (status, values')

unfoldable pub load : Bytes → Option (List Bytes) → Values → Status × Values
load path none values = (failure io_error (codes "cannot open config: " ++ path), values)
load path (some lines) values = load_lines [] 0 lines []

abbrev pub has : Bytes → Values → Bool
has key values = elim (find key values) [ none ↦ false | some v ↦ true ]

abbrev pub get_string : Bytes → Bytes → Values → Bytes
get_string key fallback values = elim (find key values) [ none ↦ fallback | some v ↦ v ]

-- `get_int` and `get_float`: a value counts if the conversion took all of it.
abbrev pub converted {ℓ} : {A : Type ℓ} → Bytes → A → Option (A × ℕ) → A
converted text fallback none = fallback
converted text fallback (some (value, end)) = if not (end == length text) then fallback else value

abbrev pub get_number {ℓ} : {A : Type ℓ} → (Bytes → Option (A × ℕ)) → Bytes → A → Values → A
get_number convert key fallback values = elim (find key values) [
  | none ↦ fallback
  | some text ↦ converted text fallback (convert text)
]

abbrev pub lower : ℕ → ℕ
lower c = if leb 65 c && leb c 90 then c + 32 else c

abbrev pub is_one_of : Bytes → List Bytes → Bool
is_one_of s [] = false
is_one_of s (t ∷ ts) = same_bytes s t || is_one_of s ts

unfoldable pub get_bool : Bytes → Bool → Values → Bool
get_bool key fallback values = elim (find key values) [
  | none ↦ fallback
  | some text ↦
      let value = map lower text in
      if is_one_of value (codes "1" ∷ codes "true" ∷ codes "yes" ∷ codes "on" ∷ [])
      then true
      else if is_one_of value (codes "0" ∷ codes "false" ∷ codes "no" ∷ codes "off" ∷ [])
      then false
      else fallback
]
