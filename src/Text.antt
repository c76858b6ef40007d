-- ===== src/Text.antt =====
-- Byte strings, and the decimal numbers that messages show.
use Prim.Native.Char.{code}
use Prim.Native.String.{String}
use pipe_ai_rk3588_industria.Prelude.{
  ℕ, zero, suc, ◌+◌, ◌/◌, ◌%◌, ◌≡◌, ◌↔◌, Bool, true, false, ◌&&◌, List, [], ◌∷◌, ◌++◌, arith, ltb,
  ◌==◌, if◌then◌else◌,
}

abbrev pub Bytes : Type 0
Bytes = List ℕ

abbrev pub codes : String → Bytes
codes String.[] = []
codes (String.◌∷◌ c s) = code c ∷ codes s

-- `a == b` on `std::string`.
unfoldable pub same_bytes : Bytes → Bytes → Bool
same_bytes [] [] = true
same_bytes (x ∷ xs) (y ∷ ys) = (x == y) && same_bytes xs ys
same_bytes _ _ = false

pub same_bytes_iff : (a b : Bytes) → (same_bytes a b ≡ true) ↔ (a ≡ b)
unfolding same_bytes
same_bytes_iff (x ∷ a) (y ∷ b) = ground (arith, same_bytes_iff a b)
same_bytes_iff _ _ = ground arith

-- `std::to_string` of an unsigned number; the fuel is the number itself, which has fewer digits.
unfoldable pub decimal : ℕ → ℕ → Bytes
decimal zero n = (b'0' + n % 10) ∷ []
decimal (suc fuel) n =
    let rest = decimal fuel (n / 10) in
    if ltb n 10 then (b'0' + n) ∷ [] else rest ++ ((b'0' + n % 10) ∷ [])

abbrev pub to_string : ℕ → Bytes
to_string n = decimal n n

abbrev pub is_empty : Bytes → Bool
is_empty [] = true
is_empty (c ∷ cs) = false

abbrev pub trim_start : (ℕ → Bool) → Bytes → Bytes
trim_start blank [] = []
trim_start blank (c ∷ cs) = let rest = trim_start blank cs in if blank c then rest else c ∷ cs

abbrev pub trim_end : (ℕ → Bool) → Bytes → Bytes
trim_end blank [] = []
trim_end blank (c ∷ cs) =
    let rest = trim_end blank cs in if blank c && is_empty rest then [] else c ∷ rest

-- A string less its first and its last characters that are blank.
abbrev pub trim_by : (ℕ → Bool) → Bytes → Bytes
trim_by blank s = trim_end blank (trim_start blank s)
