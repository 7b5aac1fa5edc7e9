-- ===== src/Ml/Labels.antt =====
-- `label_ohlc_hit_2r_before_1r` of app/ml/labels.py: whether a trade would have won twice its risk
-- before it lost it. The columns of the frame of bars are the fields of a bar.
pub mod Laws
use one_year_billion.Common.{
  ℕ, Bool, true, false, not, ◌&&◌, Option, none, some, List, [], ◌∷◌, String, ◌≟◌, is_in, upper,
  Result, raise_if, ◌>>=◌, ◌>>◌, if◌then◌else◌,
}
use one_year_billion.Common.Float.{Float, ◌<=?◌, ◌⊕◌, ◌⊖◌, ◌⊗◌, nought}

pub data AmbiguousPolicy : Type 0 where
  conservative_sl skip : AmbiguousPolicy

pub data LabelError : Type 0 where
  invalid_r side_must_be_buy_or_sell : LabelError

pub record Bar (W : Type 0) : Type 0 where
  pub high : W
  pub low : W

-- `0 if ambiguous_policy == 'conservative_sl' else None`
abbrev pub ambiguous_label : AmbiguousPolicy → Option ℕ
ambiguous_label AmbiguousPolicy.conservative_sl = some 0
ambiguous_label AmbiguousPolicy.skip = none

module _ {W : Type 0} ⦃f : Float W⦄ where
  -- whether a bar reaches the target, and the stop, of a long or a short trade
  abbrev pub hits_tp : Bool → W → Bar W → Bool
  hits_tp true tp bar = tp <=? bar.high
  hits_tp false tp bar = bar.low <=? tp

  abbrev pub hits_sl : Bool → W → Bar W → Bool
  hits_sl true sl bar = bar.low <=? sl
  hits_sl false sl bar = sl <=? bar.high

  abbrev pub target : Bool → W → W → W
  target true entry r = entry ⊕ f.lit 2 0 ⊗ r
  target false entry r = entry ⊖ f.lit 2 0 ⊗ r

  abbrev pub stop_loss : Bool → W → W → W
  stop_loss true entry r = entry ⊖ r
  stop_loss false entry r = entry ⊕ r

  -- the loop over the bars
  unfoldable pub scan_bars : AmbiguousPolicy → Bool → W → W → List (Bar W) → Option ℕ
  scan_bars policy buy tp sl [] = some 0
  scan_bars policy buy tp sl (bar ∷ bars) =
      let rest = scan_bars policy buy tp sl bars in
      if hits_tp buy tp bar && hits_sl buy sl bar
      then ambiguous_label policy
      else if hits_tp buy tp bar
      then some 1
      else if hits_sl buy sl bar
      then some 0
      else rest

  unfoldable pub label_ohlc_hit_2r_before_1r :
      List (Bar W) → W → W → String → AmbiguousPolicy → Result LabelError (Option ℕ)
  label_ohlc_hit_2r_before_1r bars entry stop side policy =
      let r = f.abs (entry ⊖ stop) in
      let buy = upper side ≟ "BUY" in
      do
        raise_if (r <=? nought) LabelError.invalid_r
        raise_if (not (is_in (upper side) ("BUY" ∷ "SELL" ∷ [])))
            LabelError.side_must_be_buy_or_sell
        Result.ok (scan_bars policy buy (target buy entry r) (stop_loss buy entry r) bars)
