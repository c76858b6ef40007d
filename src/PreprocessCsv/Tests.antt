-- ===== src/PreprocessCsv/Tests.antt =====
-- The program on a file of two samples, with whole numbers printed in unary.
use pipe_ai_rk3588_industria.Prelude.{
  ℕ, zero, suc, ◌≡◌, refl, ◌≢◌, ◌↔◌, ◌⊎◌, Bool, true, false, ◌||◌, Option, none, some, List, [],
  ◌∷◌, ◌++◌, ◌==◌, if◌then◌else◌, length, replicate, length-replicate, All,
}
use pipe_ai_rk3588_industria.Prelude.Int.{ℤ, pos, negsuc}
use pipe_ai_rk3588_industria.Floats.Fixed.{fixed}
use pipe_ai_rk3588_industria.Text.{Bytes, codes, is_empty}
use pipe_ai_rk3588_industria.Status.{success, is_ok}
use pipe_ai_rk3588_industria.Types.{target_length}
use pipe_ai_rk3588_industria.Csv
use pipe_ai_rk3588_industria.PreprocessCsv.{table, main, summary}
use pipe_ai_rk3588_industria.PreprocessCsv.Cells.{IsSolid, Prints, IsUncut}
use pipe_ai_rk3588_industria.PreprocessCsv.Written.{table_lines, joined, row_samples, read-table}
use pipe_ai_rk3588_industria.PreprocessCsv.Exit.{read_from, preprocessed, main_exit}

abbrev print : Option ℤ → Bytes
print none = b'n' ∷ []
print (some (pos n)) = b'p' ∷ replicate n b'1'
print (some (negsuc n)) = b'm' ∷ replicate n b'1'

unfoldable strtof : Bytes → Option ℤ × ℕ
strtof [] = (none, 0)
strtof (c ∷ s) =
    if c == b'p'
    then (some (pos (length s)), suc (length s))
    else if c == b'm'
    then (some (negsuc (length s)), suc (length s))
    else (none, 1)

ones-IsSolid : (n : ℕ) → All IsSolid (replicate n b'1')
ones-IsSolid zero = tt
ones-IsSolid (suc n) = ((refl, refl, refl), ones-IsSolid n)

print-IsSolid : (x : Option ℤ) → All IsSolid (print x)
print-IsSolid none = ((refl, refl, refl), tt)
print-IsSolid (some (pos n)) = ((refl, refl, refl), ones-IsSolid n)
print-IsSolid (some (negsuc n)) = ((refl, refl, refl), ones-IsSolid n)

print_some : (x : Option ℤ) → is_empty (print x) ≡ false
print_some none = refl
print_some (some (pos n)) = refl
print_some (some (negsuc n)) = refl

strtof-print : (x : Option ℤ) → strtof (print x) ≡ (x, length (print x))
unfolding strtof
strtof-print none = refl
strtof-print (some (pos n)) = rw (length-replicate {A = ℕ} n b'1')
strtof-print (some (negsuc n)) = rw (length-replicate {A = ℕ} n b'1')

unary-Prints : Prints fixed print strtof
unary-Prints = record { some_text = print_some; solid = print-IsSolid; reads_back = strtof-print }

abbrev mixed : List (Option ℤ)
mixed = replicate 1000 (some (pos 3)) ++ replicate 152 none

read-table_example :
    (table fixed print mixed ≡ joined (table_lines fixed print mixed))
    × All (All IsUncut) (table_lines fixed print mixed)
    × (Csv.read fixed strtof (codes "t.csv") (some (table_lines fixed print mixed)) []
        ≡ (success, row_samples fixed mixed 0 target_length))
read-table_example = read-table fixed print strtof unary-Prints mixed (codes "t.csv")

abbrev lines_of : Bytes → Option (List Bytes)
lines_of path = some (
    codes "D1,D2,D3,D4,D5,D6,D7,D8,IMU"
    ∷ codes "p1,p1,p1,p1,p1,p1,p1,p1,p"
    ∷ codes "p1,p1,p1,n,p1,p1,p1,p1,n"
    ∷ [])

abbrev opened : Bytes → Bool
opened path = false

main_exit_example :
    let o =
      main fixed print strtof lines_of opened (codes "pre" ∷ codes "a.csv" ∷ codes "b.csv" ∷ []) in
    let (status, tensor, report) =
      preprocessed fixed print strtof lines_of opened (codes "a.csv") in
    ((o.exit_status ≡ 0) ↔ (
      (is_ok (read_from fixed print strtof lines_of opened (codes "a.csv")).0 ≡ true)
      × (is_ok status ≡ true)
      × ((is_empty (codes "b.csv") || opened (codes "b.csv")) ≡ true)))
    × (o.exit_status ≡ 0
        → (o.err ≡ summary report)
          × (((o.out ≡ table fixed print tensor) × (o.written ≡ none))
              ⊎ ((o.out ≡ []) × (o.written ≡ some (codes "b.csv", table fixed print tensor)))))
    × (o.exit_status ≢ 0 → (o.out ≡ []) × (o.written ≡ none))
    × (main fixed print strtof lines_of opened (codes "pre" ∷ codes "a.csv" ∷ [])
        ≡ main fixed print strtof lines_of opened (codes "pre" ∷ codes "a.csv" ∷ [] ∷ []))
main_exit_example =
    main_exit fixed print strtof lines_of opened (codes "pre") (codes "a.csv") (codes "b.csv")
