-- ===== src/Ml/Tests.antt =====
-- Labels of concrete bars.
use one_year_billion.Common.{◌≡◌, refl, true, some, List, [], ◌∷◌, Result, upper}
use one_year_billion.Common.Int.{◌+ℤ◌, ◌-ℤ◌, ◌*ℤ◌, quot_ℤ}
use one_year_billion.Common.Fixed.{Fixed, fixed_float, mul_fixed}
use one_year_billion.Ml.Labels.{
  AmbiguousPolicy, Bar, scan_bars, label_ohlc_hit_2r_before_1r, target, stop_loss,
}
use one_year_billion.Ml.Labels.Laws.{WinsFirst, label_one-WinsFirst}

abbrev bars_1 : List (Bar Fixed)
bars_1 =
    record { high = fixed_float.lit 103 0; low = fixed_float.lit 98 0 }
    ∷ record { high = fixed_float.lit 107 0; low = fixed_float.lit 101 0 }
    ∷ record { high = fixed_float.lit 104 0; low = fixed_float.lit 90 0 }
    ∷ []

label_1 :
    label_ohlc_hit_2r_before_1r bars_1
      (fixed_float.lit 100 0)
      (fixed_float.lit 97 0)
      "buy"
      AmbiguousPolicy.skip
    ≡ Result.ok (some 1)
unfolding label_ohlc_hit_2r_before_1r scan_bars upper ◌+ℤ◌ ◌-ℤ◌ mul_fixed ◌*ℤ◌ quot_ℤ
label_1 = refl

label_one-WinsFirst_example :
    WinsFirst true
      (target true (fixed_float.lit 100 0) (fixed_float.lit 3 0))
      (stop_loss true (fixed_float.lit 100 0) (fixed_float.lit 3 0))
      bars_1
unfolding upper ◌-ℤ◌
label_one-WinsFirst_example =
    label_one-WinsFirst bars_1 (fixed_float.lit 100 0) (fixed_float.lit 97 0) "buy"
      AmbiguousPolicy.skip label_1
