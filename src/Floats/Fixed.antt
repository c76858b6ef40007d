-- ===== src/Floats/Fixed.antt =====
-- A float type on which all the named laws hold and the code runs: whole numbers with a NaN, whose
-- `double` counts in 42nds, so that the filter weights and their products are exact.
use pipe_ai_rk3588_industria.Prelude.{
  suc, ◌+◌, ◌*◌, ◌/◌, ◌≡◌, refl, Bool, true, false, not, Option, none, some, arith,
}
use pipe_ai_rk3588_industria.Prelude.Int.{ℤ, pos, negsuc, pos_part, sub_ℕ, ◌+ℤ◌, ◌-ℤ◌, ◌*ℤ◌, ltb_ℤ}
use pipe_ai_rk3588_industria.Floats.{Floats, IsIeee}

-- Division that rounds towards zero.
unfoldable pub div_ℤ : ℤ → ℤ → ℤ
div_ℤ (pos a) (pos b) = pos (a / b)
div_ℤ (pos a) (negsuc b) = sub_ℕ 0 (a / suc b)
div_ℤ (negsuc a) (pos b) = sub_ℕ 0 (suc a / b)
div_ℤ (negsuc a) (negsuc b) = pos (suc a / suc b)

abbrev pub on_numbers {ℓ} : {A : Type ℓ} → A → (ℤ → ℤ → A) → Option ℤ → Option ℤ → A
on_numbers d f (some a) (some b) = f a b
on_numbers d f none y = d
on_numbers d f (some a) none = d

abbrev pub is_number : Option ℤ → Bool
is_number none = false
is_number (some a) = true

-- A stand-in that is positive and grows with its argument.
abbrev pub growth : Option ℤ → Option ℤ
growth none = none
growth (some a) = some (pos (pos_part a + 1))

abbrev pub in_42nds : Option ℤ → ℤ
in_42nds none = pos 0
in_42nds (some a) = pos 42 *ℤ a

abbrev pub fixed : Floats
fixed = record {
  F = Option ℤ;
  D = ℤ;
  zero_f = some (pos 0);
  one_f = some (pos 1);
  quiet_nan = none;
  is_finite = is_number;
  is_nan = λ x. not (is_number x);
  le = on_numbers false (λ a b. not (ltb_ℤ b a));
  lt = on_numbers false ltb_ℤ;
  add = on_numbers none (λ a b. some (a +ℤ b));
  sub = on_numbers none (λ a b. some (a -ℤ b));
  mul = on_numbers none (λ a b. some (a *ℤ b));
  div = on_numbers none (λ a b. some (div_ℤ a b));
  exp = growth;
  widen = in_42nds;
  narrow = λ a. some (div_ℤ a (pos 42));
  of_size = λ n. pos (42 * n);
  d_add = ◌+ℤ◌;
  d_sub = ◌-ℤ◌;
  d_mul = λ a b. div_ℤ (a *ℤ b) (pos 42);
  d_div = λ a b. div_ℤ (pos 42 *ℤ a) b;
  d_neg = λ a. pos 0 -ℤ a;
}

fixed_le_trans :
    (x y z : Option ℤ) → fixed.le x y ≡ true → fixed.le y z ≡ true → fixed.le x z ≡ true
fixed_le_trans none y z h k = cc
fixed_le_trans (some a) none z h k = cc
fixed_le_trans (some a) (some b) none h k = cc
fixed_le_trans (some a) (some b) (some c) h k = ground arith

fixed_lt_trans :
    (x y z : Option ℤ) → fixed.lt x y ≡ true → fixed.lt y z ≡ true → fixed.lt x z ≡ true
fixed_lt_trans none y z h k = cc
fixed_lt_trans (some a) none z h k = cc
fixed_lt_trans (some a) (some b) none h k = cc
fixed_lt_trans (some a) (some b) (some c) h k = ground arith

pub fixed-IsIeee : IsIeee fixed
fixed-IsIeee = record {
  nan_is_nan = refl;
  finite_not_nan = λ x h. ground arith;
  one_finite = refl;
  zero_finite = refl;
  le_refl = λ x h. ground arith;
  le_trans = fixed_le_trans;
  le_total = λ x y h k. ground arith;
  lt_irrefl = λ x. ground arith;
  lt_trans = fixed_lt_trans;
  lt_not_le = λ x y h. ground arith;
  le_of_lt = λ x y h. ground arith;
  zero_lt_one = refl;
}
