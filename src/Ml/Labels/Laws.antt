-- ===== src/Ml/Labels/Laws.antt =====
-- What the label of a win says of the bars.
use one_year_billion.Common.{
  ◌≡◌, refl, ap, true, false, Bool, inl, inr, some, List, [], ◌∷◌, ◌++◌, All, ◌⊎◌, String, ◌≟◌,
  upper, Result, arith,
}
use one_year_billion.Common.Float.{Float, ◌⊖◌}
use one_year_billion.Ml.Labels.{
  AmbiguousPolicy, Bar, hits_tp, hits_sl, target, stop_loss, scan_bars, label_ohlc_hit_2r_before_1r,
}

module _ {W : Type 0} ⦃f : Float W⦄ where
  -- The target is reached on a bar that does not reach the stop, after bars that reach neither.
  pub record WinsFirst (buy : Bool) (tp sl : W) (bars : List (Bar W)) : Type 0 where
    pub before : List (Bar W)
    pub bar : Bar W
    pub after : List (Bar W)
    pub split : bars ≡ before ++ bar ∷ after
    pub quiet : All (λ b. (hits_tp buy tp b ≡ false) × (hits_sl buy sl b ≡ false)) before
    pub won : hits_tp buy tp bar ≡ true
    pub not_lost : hits_sl buy sl bar ≡ false

  later :
      {buy : Bool} {tp sl : W} (b : Bar W) {bars : List (Bar W)}
      → hits_tp buy tp b ≡ false
      → hits_sl buy sl b ≡ false
      → WinsFirst buy tp sl bars
      → WinsFirst buy tp sl (b ∷ bars)
  later b p q w = record {
    before = b ∷ w.before;
    bar = w.bar;
    after = w.after;
    split = ap (λ xs. b ∷ xs) w.split;
    quiet = ((p, q), w.quiet);
    won = w.won;
    not_lost = w.not_lost;
  }

  step :
      (policy : AmbiguousPolicy) (buy : Bool) (tp sl : W) (b : Bar W) (bars : List (Bar W))
      → scan_bars policy buy tp sl (b ∷ bars) ≡ some 1
      → ((hits_tp buy tp b ≡ true) × (hits_sl buy sl b ≡ false))
        ⊎ ((hits_tp buy tp b ≡ false)
            × (hits_sl buy sl b ≡ false)
            × (scan_bars policy buy tp sl bars ≡ some 1))
  unfolding scan_bars
  step policy buy tp sl b bars h = ground arith

  scan-WinsFirst :
      (policy : AmbiguousPolicy) (buy : Bool) (tp sl : W) (bars : List (Bar W))
      → scan_bars policy buy tp sl bars ≡ some 1
      → WinsFirst buy tp sl bars
  unfolding scan_bars
  scan-WinsFirst policy buy tp sl [] h = absurd (ground arith)
  scan-WinsFirst policy buy tp sl (b ∷ bars) h = elim (step policy buy tp sl b bars h) [
    | inl (p, q) ↦ record {
      before = [];
      bar = b;
      after = bars;
      split = refl;
      quiet = tt;
      won = p;
      not_lost = q;
    }
    | inr (p, q, k) ↦ later b p q (scan-WinsFirst policy buy tp sl bars k)
  ]

  -- A label 1, under either policy, means that the target of twice the risk was reached on a bar that
  -- did not reach the stop, and that no bar before it reached the target or the stop.
  pub label_one-WinsFirst :
      (bars : List (Bar W)) (entry stop : W) (side : String) (policy : AmbiguousPolicy)
      → label_ohlc_hit_2r_before_1r bars entry stop side policy ≡ Result.ok (some 1)
      → let buy = upper side ≟ "BUY" in
        let r = f.abs (entry ⊖ stop) in
        WinsFirst buy (target buy entry r) (stop_loss buy entry r) bars
  unfolding label_ohlc_hit_2r_before_1r
  label_one-WinsFirst bars entry stop side policy h =
      let buy = upper side ≟ "BUY" in
      let r = f.abs (entry ⊖ stop) in
      scan-WinsFirst policy buy (target buy entry r) (stop_loss buy entry r) bars (ground arith)
