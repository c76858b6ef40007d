-- ===== src/Csv/Lines.antt =====
-- Cells that are written to a line and split again (preprocess/csv_reader.cpp).
use pipe_ai_rk3588_industria.Prelude.{
  ℕ, ◌≡◌, refl, sym, ap, ◌∙◌, inl, inr, Bool, true, false, List, [], ◌∷◌, ◌++◌, map, append-nil,
  append_assoc, ◌==◌, if◌then◌else◌, ==_iff, Bool-cases, All,
}
use pipe_ai_rk3588_industria.Text.{Bytes}
use pipe_ai_rk3588_industria.Status.{success}
use pipe_ai_rk3588_industria.Csv.{
  Cursor, scan_char, scan, split_line, finish, starts_quote, comma, quote,
}

pub data Cell : Type 0 where
  bare : Bytes → Cell
  in_quotes : Bytes → Cell

abbrev pub text : Cell → Bytes
text (bare cs) = cs
text (in_quotes cs) = cs

-- A quote within quotes is written twice.
abbrev pub escape : Bytes → Bytes
escape [] = []
escape (c ∷ cs) = let rest = escape cs in if c == quote then quote ∷ (quote ∷ rest) else c ∷ rest

abbrev pub write_cell : Cell → Bytes
write_cell (bare cs) = cs
write_cell (in_quotes cs) = quote ∷ (escape cs ++ (quote ∷ []))

abbrev pub write_more : List Cell → Bytes
write_more [] = []
write_more (c ∷ cells) = comma ∷ (write_cell c ++ write_more cells)

abbrev pub write_line : Cell → List Cell → Bytes
write_line c cells = write_cell c ++ write_more cells

abbrev pub IsPlain : Bytes → Type 0
IsPlain [] = Unit {0}
IsPlain (c ∷ cs) = ((c == comma) ≡ false) × ((c == quote) ≡ false) × IsPlain cs

-- Outside quotes a cell has neither commas nor quotes.
abbrev pub Fits : Cell → Type 0
Fits (bare cs) = IsPlain cs
Fits (in_quotes cs) = Unit {0}

abbrev cursor : Bool → Bytes → List Bytes → Cursor
cursor quoted field fields = record {
  quoted = quoted;
  skip = false;
  field = field;
  fields = fields;
}

scan-plain :
    (cs rest field : Bytes) (fields : List Bytes)
    → IsPlain cs
    → scan (cursor false field fields) (cs ++ rest) ≡ scan (cursor false (field ++ cs) fields) rest
unfolding scan scan_char
scan-plain [] rest field fields h =
    ap (λ f. scan (cursor false f fields) rest) (sym (append-nil field))
scan-plain (c ∷ cs) rest field fields (a, b, h) =
    rw (a, b)
      (scan-plain cs rest (field ++ (c ∷ [])) fields h
        ∙ ap (λ f. scan (cursor false f fields) rest) (append_assoc field (c ∷ []) cs))

scan-escape :
    (cs rest field : Bytes) (fields : List Bytes)
    → starts_quote rest ≡ false
    → scan (cursor true field fields) (escape cs ++ (quote ∷ rest))
      ≡ scan (cursor false (field ++ cs) fields) rest
unfolding scan scan_char
scan-escape [] rest field fields h =
    rw h (ap (λ f. scan (cursor false f fields) rest) (sym (append-nil field)))
scan-escape (c ∷ cs) rest field fields h =
    let go = λ (d : ℕ).
      scan-escape cs rest (field ++ (d ∷ [])) fields h
      ∙ ap (λ f. scan (cursor false f fields) rest) (append_assoc field (d ∷ []) cs) in
    elim (Bool-cases (c == quote)) [
      | inr other ↦ rw (other, other) (go c)
      | inl same ↦ rw same (
          go quote
          ∙ ap (λ d. scan (cursor false (field ++ (d ∷ cs)) fields) rest)
              (sym ((==_iff c quote).0 same)))
    ]

scan-cell :
    (cell : Cell) (rest : Bytes) (fields : List Bytes)
    → Fits cell
    → starts_quote rest ≡ false
    → scan (cursor false [] fields) (write_cell cell ++ rest)
      ≡ scan (cursor false (text cell) fields) rest
unfolding scan scan_char
scan-cell (bare cs) rest fields fits h = scan-plain cs rest [] fields fits
scan-cell (in_quotes cs) rest fields fits h =
    ap (scan (cursor true [] fields)) (append_assoc (escape cs) (quote ∷ []) rest)
    ∙ scan-escape cs rest [] fields h

abbrev texts : List Cell → List Bytes
texts = map text

more_starts : (cells : List Cell) → starts_quote (write_more cells) ≡ false
more_starts [] = refl
more_starts (c ∷ cells) = refl

scan-more :
    (cells : List Cell) (field : Bytes) (fields : List Bytes)
    → All Fits cells
    → (finish (scan (cursor false field fields) (write_more cells))
        ≡ (success, fields ++ (field ∷ texts cells)))
unfolding scan scan_char
scan-more [] field fields h = refl
scan-more (c ∷ cells) field fields (fits, h) =
    ap finish (scan-cell c (write_more cells) (fields ++ (field ∷ [])) fits (more_starts cells))
    ∙ scan-more cells (text c) (fields ++ (field ∷ [])) h
    ∙ ap (λ fs. (success, fs)) (append_assoc fields (field ∷ []) (text c ∷ texts cells))

-- What is written cell by cell, joined with commas, splits into the texts of the cells: a cell in
-- quotes, its quotes doubled, may hold anything, another one anything but commas and quotes.
pub split_line-write_line :
    (c : Cell) (cells : List Cell)
    → All Fits (c ∷ cells)
    → split_line (write_line c cells) ≡ (success, text c ∷ texts cells)
unfolding split_line
split_line-write_line c cells (fits, h) =
    ap finish (scan-cell c (write_more cells) [] fits (more_starts cells))
    ∙ scan-more cells (text c) [] h
