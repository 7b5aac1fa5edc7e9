-- ===== src/Common/Fixed.antt =====
-- Numbers with twelve decimal places, and `none` for NaN: a concrete `Float` at which the
-- definitions run, and at which the laws of `IsIeee` hold.
use Prim.Native.Nat.{ℕ, suc, ◌-◌, ◌*◌, ◌/◌, ◌^◌, ◌≤◌, ◌<◌}
use mathlib.Core.Path.{◌≡◌, refl}
use mathlib.Core.Bool.{Bool, true, false}
use mathlib.Core.Option.{Option, none, some}
use Prim.Native.String.{String, ◌++◌}
use one_year_billion.Common.Text.{decimal}
use native.Mathlib.Omega.{arith}
use native.Mathlib.Nat.{pow-zero, div-one, one-le-pow}
use one_year_billion.Common.Base.{if◌then◌else◌}
use one_year_billion.Common.Int.{
  ℤ, pos, negsuc, ◌+ℤ◌, ◌-ℤ◌, ◌*ℤ◌, ltb_ℤ, leb_ℤ, eqb_ℤ, abs_ℤ, neg_ℤ, quot_ℤ,
}
use one_year_billion.Common.Float.{Float, IsIeee}

abbrev pub Fixed : Type 0
Fixed = Option ℤ

abbrev scale : ℤ
scale = pos 1_000_000_000_000

abbrev compare_with : (ℤ → ℤ → Bool) → Fixed → Fixed → Bool
compare_with f (some a) (some b) = f a b
compare_with f _ _ = false

abbrev compute_with : (ℤ → ℤ → ℤ) → Fixed → Fixed → Fixed
compute_with f (some a) (some b) = some (f a b)
compute_with f _ _ = none

abbrev is_some : Fixed → Bool
is_some none = false
is_some (some _) = true

unfoldable pub mul_fixed : ℤ → ℤ → ℤ
unfolding ◌*ℤ◌ quot_ℤ
mul_fixed a b = quot_ℤ (a *ℤ b) scale

unfoldable pub quot_fixed : ℤ → ℤ → ℤ
unfolding ◌*ℤ◌ quot_ℤ
quot_fixed a b = quot_ℤ (a *ℤ scale) b

abbrev lit_fixed : ℕ → ℕ → Fixed
lit_fixed m d = some (pos (m * 10 ^ (12 - d) / 10 ^ (d - 12)))

-- rounds towards zero, which is down for the amounts of the program
abbrev floor_fixed : ℤ → ℤ → Option Fixed
floor_fixed v s = if eqb_ℤ s (pos 0) then none else some (some (quot_ℤ v s *ℤ s))

abbrev floor_step : Fixed → Fixed → Option Fixed
floor_step (some v) (some s) = floor_fixed v s
floor_step _ _ = some none

abbrev map_fixed : (ℤ → ℤ) → Fixed → Fixed
map_fixed f none = none
map_fixed f (some a) = some (f a)

-- the value in units of 10⁻¹²
abbrev text_of : Fixed → String
text_of none = "nan"
text_of (some (pos n)) = decimal n
text_of (some (negsuc n)) = "-" ++ decimal (suc n)

instance abbrev pub fixed_float : Float Fixed
fixed_float = record {
  lt = compare_with ltb_ℤ;
  le = compare_with leb_ℤ;
  eq = compare_with eqb_ℤ;
  is_finite = is_some;
  add = compute_with ◌+ℤ◌;
  sub = compute_with ◌-ℤ◌;
  mul = compute_with mul_fixed;
  quot = compute_with quot_fixed;
  abs = map_fixed abs_ℤ;
  neg = map_fixed neg_ℤ;
  lit = lit_fixed;
  decimal_floor = floor_step;
  to_text = text_of;
}

lit_digits-pos : (m d : ℕ) → 0 < m → d ≤ 12 → 0 < m * 10 ^ (12 - d) / 10 ^ (d - 12)
lit_digits-pos m d h k =
    let none_lost : d - 12 ≡ 0 = omega arith in
    rw (none_lost, pow-zero, div-one) (grind (arith, one-le-pow (12 - d) 10 (omega arith)))

pub Fixed-IsIeee : IsIeee Fixed
unfolding ◌+ℤ◌ ◌-ℤ◌ mul_fixed quot_fixed
Fixed-IsIeee = record {
  finite-IsNumber = λ x h. ground arith;
  lt-IsNumber = λ x y h. ground arith;
  le-IsNumber = λ x y h. ground arith;
  lt-not-le = λ x y h k. ground arith;
  le_total = λ x y h k. ground arith;
  le_of_eq = λ x y h. ground arith;
  eq_comm = λ x y. ground arith;
  le_antisymm = λ x y h k. ground arith;
  le_trans = λ x y z h k. ground arith;
  sub-IsNumber = λ x y h. ground arith;
  add-IsNumber = λ x y h. ground arith;
  quot-IsNumber = λ x y h. ground arith;
  add_nonneg = λ x y h k. ground arith;
  mul_nonneg = λ x y p q h k. ground arith;
  abs_nonneg = λ x h. ground arith;
  sub_finite = λ x y h k. ground arith;
  lit_finite = λ m d _ _. refl;
  lit_pos = λ m d h k. ground (arith, lit_digits-pos m d h k);
}
