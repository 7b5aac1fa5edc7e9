-- ===== src/Common/Float.antt =====
-- Python's `float`, as far as the program uses it. The type and its operations are an argument of
-- every definition that computes with prices; what a proof needs of IEEE 754 is in `IsIeee`.
use Prim.Native.Nat.{ℕ, ◌≤◌, ◌<◌}
use mathlib.Core.Path.{◌≡◌, sym, ◌∙◌}
use mathlib.Core.Bool.{Bool, true, false, not, ◌||◌}
use mathlib.Core.Option.{Option, none, some}
use Prim.Native.String.{String}
use native.Mathlib.Omega.{arith}
use mathlib.Core.Logic.{inl, inr}
use mathlib.Core.Bool.{false≢true}
use one_year_billion.Common.Base.{Bool-cases, if◌then◌else◌}

pub record Float (W : Type 0) : Type 0 where
  pub lt : W → W → Bool
  pub le : W → W → Bool
  -- `==`
  pub eq : W → W → Bool
  -- `math.isfinite`
  pub is_finite : W → Bool
  pub add : W → W → W
  pub sub : W → W → W
  pub mul : W → W → W
  -- the quotient by a divisor that is not zero
  pub quot : W → W → W
  pub abs : W → W
  pub neg : W → W
  -- `lit m d` is the literal with the digits `m`, of which `d` stand after the point
  pub lit : ℕ → ℕ → W
  -- `float(floor(Decimal(str(v)) / Decimal(str(s))) * Decimal(str(s)))`; `none` where `decimal`
  -- raises
  pub decimal_floor : W → W → Option W
  -- `str(x)`
  pub to_text : W → String

module _ {W : Type 0} ⦃f : Float W⦄ where
  infix 50 ◌<?◌ ◌<=?◌ ◌==?◌
  abbrev pub ◌<?◌ : W → W → Bool
  x <? y = f.lt x y

  abbrev pub ◌<=?◌ : W → W → Bool
  x <=? y = f.le x y

  abbrev pub ◌==?◌ : W → W → Bool
  x ==? y = f.eq x y

  infixl 65 ◌⊕◌ ◌⊖◌
  infixl 70 ◌⊗◌
  abbrev pub ◌⊕◌ : W → W → W
  x ⊕ y = f.add x y

  abbrev pub ◌⊖◌ : W → W → W
  x ⊖ y = f.sub x y

  abbrev pub ◌⊗◌ : W → W → W
  x ⊗ y = f.mul x y

  abbrev pub nought : W
  nought = f.lit 0 0

  -- Python's `max(x, y)`: the second only where it is greater. Of a NaN and a number it returns
  -- the first.
  abbrev pub py_max : W → W → W
  py_max x y = if x <? y then y else x

  -- Python's `min(x, y)`
  abbrev pub py_min : W → W → W
  py_min x y = if y <? x then y else x

  -- `bool(x)`: only a zero is false, and NaN is true
  abbrev pub nonzero : W → Bool
  nonzero x = not (x ==? nought)

  abbrev pub nonzero? : Option W → Bool
  nonzero? none = false
  nonzero? (some x) = nonzero x

  -- A value that is not NaN: it equals itself.
  abbrev pub IsNumber : W → Type 0
  IsNumber x = (x ==? x) ≡ true

-- What the proofs use of IEEE 754 comparison and rounding. NaN is the value that is no number.
pub record IsIeee (W : Type 0) ⦃f : Float W⦄ : Type 0 where
  pub finite-IsNumber : (x : W) → f.is_finite x ≡ true → IsNumber x
  -- a comparison with NaN is false
  pub lt-IsNumber : (x y : W) → (x <? y) ≡ true → IsNumber x × IsNumber y
  pub le-IsNumber : (x y : W) → (x <=? y) ≡ true → IsNumber x × IsNumber y
  -- away from NaN the order is total
  pub lt-not-le : (x y : W) → IsNumber x → IsNumber y → (x <? y) ≡ not (y <=? x)
  pub le_total : (x y : W) → IsNumber x → IsNumber y → ((x <=? y) || (y <=? x)) ≡ true
  pub le_of_eq : (x y : W) → (x ==? y) ≡ true → (x <=? y) ≡ true
  pub eq_comm : (x y : W) → (x ==? y) ≡ (y ==? x)
  pub le_antisymm : (x y : W) → (x <=? y) ≡ true → (y <=? x) ≡ true → (x ==? y) ≡ true
  pub le_trans : (x y z : W) → (x <=? y) ≡ true → (y <=? z) ≡ true → (x <=? z) ≡ true
  -- arithmetic hands NaN on
  pub sub-IsNumber : (x y : W) → IsNumber (x ⊖ y) → IsNumber x × IsNumber y
  pub add-IsNumber : (x y : W) → IsNumber (x ⊕ y) → IsNumber x × IsNumber y
  pub quot-IsNumber : (x y : W) → IsNumber (f.quot x y) → IsNumber x × IsNumber y
  -- sums of numbers that are not negative, and differences from a finite number, are numbers
  pub add_nonneg :
      (x y : W) → (nought <=? x) ≡ true → (nought <=? y) ≡ true → (nought <=? x ⊕ y) ≡ true
  pub mul_nonneg :
      (x y : W)
      → f.is_finite x ≡ true
      → f.is_finite y ≡ true
      → (nought <=? x) ≡ true
      → (nought <=? y) ≡ true
      → (nought <=? x ⊗ y) ≡ true
  pub abs_nonneg : (x : W) → IsNumber x → (nought <=? f.abs x) ≡ true
  pub sub_finite : (x y : W) → f.is_finite x ≡ true → IsNumber y → IsNumber (x ⊖ y)
  -- short literals are finite, and with up to twelve places positive unless all their digits are 0
  pub lit_finite : (m d : ℕ) → m ≤ 1000000 → d ≤ 12 → f.is_finite (f.lit m d) ≡ true
  pub lit_pos : (m d : ℕ) → 0 < m → d ≤ 12 → (nought <? f.lit m d) ≡ true

-- A failed comparison of two numbers is the other comparison, turned round.
module _ {W : Type 0} ⦃f : Float W⦄ (laws : IsIeee W) where
  pub nought-IsNumber : IsNumber {W = W} nought
  nought-IsNumber = laws.finite-IsNumber nought (laws.lit_finite 0 0 (omega arith) (omega arith))

  pub lt_of_not_le : (x y : W) → IsNumber x → IsNumber y → (y <=? x) ≡ false → (x <? y) ≡ true
  lt_of_not_le x y p q h = ground (arith, laws.lt-not-le x y)

  pub le_of_not_lt : (x y : W) → IsNumber x → IsNumber y → (y <? x) ≡ false → (x <=? y) ≡ true
  le_of_not_lt x y p q h = ground (arith, laws.lt-not-le y x)

  pub le_of_lt : (x y : W) → (x <? y) ≡ true → (x <=? y) ≡ true
  le_of_lt x y h =
      let (p, q) = laws.lt-IsNumber x y h in
      ground (arith, laws.lt-not-le x y p q, laws.le_total x y p q)

  pub lt_of_lt_of_le : (x y z : W) → (x <? y) ≡ true → (y <=? z) ≡ true → (x <? z) ≡ true
  lt_of_lt_of_le x y z h k =
      let (p, q) = laws.lt-IsNumber x y h in
      let (_, r) = laws.le-IsNumber y z k in
      ground (arith, laws.lt-not-le x y p q, laws.lt-not-le x z p r, laws.le_trans y z x k)

  -- A number that is positive is not zero.
  pub pos-ne-nought : (x : W) → (nought <? x) ≡ true → (x ==? nought) ≡ false
  pos-ne-nought x h =
      let (p, q) = laws.lt-IsNumber nought x h in
      ground (arith, laws.lt-not-le nought x p q, laws.le_of_eq x nought)

  -- `max(x, c)` for a positive `c` is not zero, also where `x` is NaN.
  pub py_max-ne-nought : (x c : W) → (nought <? c) ≡ true → (py_max x c ==? nought) ≡ false
  py_max-ne-nought x c h = elim (Bool-cases (x <? c)) [
    | inl small ↦ rw small (pos-ne-nought c h)
    | inr big ↦ rw big (elim (Bool-cases (x ==? nought)) [
      | inl zero_x ↦
          let below = laws.le_of_eq x nought zero_x in
          let (n, _) = laws.le-IsNumber x nought below in
          let (_, m) = laws.lt-IsNumber nought c h in
          absurd (
            false≢true (
              sym big
              ∙ ground (
                arith,
                laws.lt-not-le x c n m,
                laws.le_trans c x nought,
                laws.lt-not-le nought c (nought-IsNumber) m,
              )))
      | inr e ↦ e
    ])
  ]
