-- ===== src/Risk/Approval/Laws/Inputs.antt =====
-- What an approved signal and the data it was judged on look like.
use one_year_billion.Common.{
  ℕ, ◌<◌, ◌≡◌, refl, true, false, not, ◌&&◌, ◌||◌, Bool, any, Option, none, some, String, ≟→≡,
  upper, lower, is_in, leb, Pass, Pass-at, fails_at, is_none, and-true, Result, arith, or-false,
  not-false,
}
use one_year_billion.Common.Float.{
  Float, IsIeee, IsNumber, ◌<?◌, ◌<=?◌, nought, nought-IsNumber, lt_of_not_le, le_of_not_lt,
}
use one_year_billion.Domain.{
  Side, buy, sell, SignalCandidate, AccountSnapshot, MarketSnapshot, InstrumentSpec, MlVerdict,
  fresh_at, is_buy,
}
use one_year_billion.Risk.Cost.{CostModel}
use one_year_billion.Risk.Approval.Config.{
  RiskConfig, forbidden_product_strategies, shadow_only_strategies_phase_0_1,
}
use one_year_billion.Risk.Approval.Checks.{
  numeric_checks, runtime_checks, lineage_checks, stop_checks, policy_checks, ml_checks,
  signal_numbers, not_finite, not_positive, not_nonnegative, is_unavailable,
}
use one_year_billion.Risk.Approval.Decide.{Decision, approve_signal}
use one_year_billion.Risk.Approval.Laws.Parts.{approved-Passed}

module _ {W : Type 0} ⦃f : Float W⦄ where
  -- The stop stands on the side of the entry price where the position loses.
  abbrev pub LosesAt : Side → W → W → Type 0
  LosesAt buy entry stop = (stop <? entry) ≡ true
  LosesAt sell entry stop = (entry <? stop) ≡ true

  -- A price plan with a stop.
  pub record IsPriced (signal : SignalCandidate W) : Type 0 where
    pub stop : W
    pub given : signal.stop_price ≡ some stop
    pub positive_entry : (nought <? signal.entry_price) ≡ true
    pub positive_stop : (nought <? stop) ≡ true
    pub losing_side : LosesAt signal.side signal.entry_price stop
    pub positive_edge : (nought <? signal.expected_gross_edge_bps) ≡ true

  -- The data is of the present and about one instrument.
  pub record IsCurrent (now : ℕ) (signal : SignalCandidate W) (account : AccountSnapshot W)
      (market : MarketSnapshot W) (specs : InstrumentSpec W) : Type 0 where
    pub account_fresh : now < account.expires_at
    pub market_fresh : now < market.expires_at
    pub specs_fresh : now < specs.expires_at
    pub market_symbol : upper signal.symbol ≡ upper market.symbol
    pub specs_symbol : upper signal.symbol ≡ upper specs.symbol
    pub linear : specs.category ≡ "linear"
    pub trading : specs.status ≡ "Trading"
    pub funding_known : market.funding_fresh ≡ true
    pub positive_bid : (nought <? market.bid1) ≡ true
    pub book_not_crossed : (market.bid1 <=? market.ask1) ≡ true
    pub positive_equity : (nought <? account.equity_usdt) ≡ true

  -- The policy of the phase allows the trade.
  pub record IsPermitted (signal : SignalCandidate W) (ml : MlVerdict W)
      (account : AccountSnapshot W) (market : MarketSnapshot W) (cfg : RiskConfig W) : Type 0 where
    pub not_forbidden : is_in (lower signal.strategy) forbidden_product_strategies ≡ false
    pub not_shadow : signal.shadow_only ≡ false
    pub not_shadow_in_phase :
        (leb account.phase 1 && is_in (lower signal.strategy) shadow_only_strategies_phase_0_1)
        ≡ false
    pub spread_narrow : (market.spread_bps <=? cfg.max_spread_bps) ≡ true
    pub depth_enough : (cfg.min_depth_usdt <=? market.depth_usdt) ≡ true
    pub no_mismatch : account.position_mismatch ≡ false
    pub no_daily_hit : account.daily_loss_hit ≡ false
    pub no_weekly_hit : account.weekly_loss_hit ≡ false
    pub ml_not_blocking : (ml.required && (ml.block || is_unavailable ml.verdict)) ≡ false

is_some_of : {A : Type 0} (o : Option A) → is_none o ≡ false → (a : A) × (o ≡ some a)
is_some_of none h = cc
is_some_of (some a) h = (a, refl)

fresh_of : (now expires_at : ℕ) → not (fresh_at now expires_at) ≡ false → now < expires_at
fresh_of now expires_at h = ground arith

clear_of :
    (needed block missing : Bool)
    → (needed && block) ≡ false
    → (needed && missing) ≡ false
    → (needed && (block || missing)) ≡ false
clear_of needed block missing b u = ground arith

module _ {W : Type 0} ⦃f : Float W⦄ (laws : IsIeee W) where
  finite_of : (x : W) → not_finite x ≡ false → IsNumber x
  finite_of x h = laws.finite-IsNumber x (not-false _ h)

  positive_of : (x : W) → not_positive x ≡ false → (nought <? x) ≡ true
  positive_of x h = ground arith

  stop_beside :
      (side : Side) (entry stop : W)
      → IsNumber entry
      → IsNumber stop
      → (is_buy side ≡ true → (entry <=? stop) ≡ false)
      → (is_buy side ≡ false → (stop <=? entry) ≡ false)
      → LosesAt side entry stop
  stop_beside buy entry stop p q h k = lt_of_not_le laws stop entry q p (h refl)
  stop_beside sell entry stop p q h k = lt_of_not_le laws entry stop p q (k refl)

  -- what the checks say of a stop that is given
  stop_tests :
      (signal : SignalCandidate W) (cfg : RiskConfig W) (costs : CostModel W) (stop : W)
      → signal.stop_price ≡ some stop
      → any not_finite (signal_numbers signal) ≡ false
      → fails_at 0 (stop_checks signal) ≡ false
      → fails_at 1 (stop_checks signal) ≡ false
      → (not_finite signal.entry_price ≡ false)
        × (not_finite signal.expected_gross_edge_bps ≡ false)
        × (not_finite stop ≡ false)
        × ((stop <=? nought) ≡ false)
        × (is_buy signal.side ≡ true → (signal.entry_price <=? stop) ≡ false)
        × (is_buy signal.side ≡ false → (stop <=? signal.entry_price) ≡ false)
  unfolding stop_checks
  stop_tests signal cfg costs stop e n s t =
      (ground arith, ground arith, ground arith, ground arith, ground arith, ground arith)

  priced :
      (signal : SignalCandidate W) (cfg : RiskConfig W) (costs : CostModel W)
      → Pass (numeric_checks signal cfg costs)
      → Pass (lineage_checks signal)
      → Pass (stop_checks signal)
      → IsPriced signal
  unfolding numeric_checks lineage_checks
  priced signal cfg costs n l s =
      let (stated, _) = or-false _ _ (Pass-at 0 (lineage_checks signal) l) in
      let (stop, e) = is_some_of signal.stop_price stated in
      let (entry, gross, finite_stop, positive, buying, selling) =
        stop_tests signal cfg costs stop e (Pass-at 0 (numeric_checks signal cfg costs) n)
          (Pass-at 0 (stop_checks signal) s) (Pass-at 1 (stop_checks signal) s) in
      let zero_number = nought-IsNumber laws in
      record {
        stop = stop;
        given = e;
        positive_entry =
            lt_of_not_le laws _ _ zero_number (finite_of _ entry)
              (Pass-at 4 (lineage_checks signal) l);
        positive_stop = lt_of_not_le laws _ _ zero_number (finite_of _ finite_stop) positive;
        losing_side =
            stop_beside signal.side _ _ (finite_of _ entry) (finite_of _ finite_stop) buying
              selling;
        positive_edge =
            lt_of_not_le laws _ _ zero_number (finite_of _ gross)
              (Pass-at 5 (lineage_checks signal) l);
      }

  current :
      (now : ℕ) (signal : SignalCandidate W) (account : AccountSnapshot W)
      (market : MarketSnapshot W) (specs : InstrumentSpec W)
      → Pass (runtime_checks now signal account market specs)
      → IsCurrent now signal account market specs
  unfolding runtime_checks
  current now signal account market specs p =
      let passed = λ (n : ℕ). Pass-at n (runtime_checks now signal account market specs) p in
      let (market_symbol, specs_symbol) = or-false _ _ (passed 3) in
      let (rest, trading) = or-false _ _ (passed 4) in
      let (live, linear) = or-false _ _ rest in
      let (b1, depth) = or-false _ _ (passed 6) in
      let (b2, spread) = or-false _ _ b1 in
      let (b3, crossed) = or-false _ _ b2 in
      let (b4, ask) = or-false _ _ b3 in
      let (b5, bid) = or-false _ _ b4 in
      let bid_pos = positive_of market.bid1 bid in
      let ask_pos = positive_of market.ask1 ask in
      record {
        account_fresh = fresh_of now account.expires_at (passed 0);
        market_fresh = fresh_of now market.expires_at (passed 1);
        specs_fresh = fresh_of now specs.expires_at live;
        market_symbol = ≟→≡ _ _ (not-false _ market_symbol);
        specs_symbol = ≟→≡ _ _ (not-false _ specs_symbol);
        linear = ≟→≡ _ _ (not-false _ linear);
        trading = ≟→≡ _ _ (not-false _ trading);
        funding_known = not-false _ (passed 2);
        positive_bid = bid_pos;
        book_not_crossed =
            le_of_not_lt laws _ _ (laws.lt-IsNumber _ _ bid_pos).1 (laws.lt-IsNumber _ _ ask_pos).1
              crossed;
        positive_equity = positive_of _ (passed 7);
      }

  -- a number that is not negative, of a test that the value is not that
  tested-IsNumber : (x : W) → not_nonnegative x ≡ false → IsNumber x
  tested-IsNumber x h = (laws.le-IsNumber nought x (and-true _ _ (not-false _ h)).1).1

  permitted :
      (now : ℕ) (signal : SignalCandidate W) (ml : MlVerdict W) (account : AccountSnapshot W)
      (market : MarketSnapshot W) (specs : InstrumentSpec W) (cfg : RiskConfig W)
      (costs : CostModel W)
      → Pass (numeric_checks signal cfg costs)
      → Pass (runtime_checks now signal account market specs)
      → Pass (policy_checks signal account market cfg)
      → Pass (ml_checks ml)
      → IsPermitted signal ml account market cfg
  unfolding numeric_checks runtime_checks policy_checks ml_checks
  permitted now signal ml account market specs cfg costs n r p m =
      let passed = λ (n : ℕ). Pass-at n (policy_checks signal account market cfg) p in
      let (shadow, observed) = or-false _ _ (passed 1) in
      let (daily, weekly) = or-false _ _ (passed 5) in
      let (b1, depth) =
        or-false _ _ (Pass-at 6 (runtime_checks now signal account market specs) r) in
      let (b2, spread) = or-false _ _ b1 in
      let (c1, edge) = or-false _ _ (Pass-at 1 (numeric_checks signal cfg costs) n) in
      let (c2, min_depth) = or-false _ _ c1 in
      let (c3, max_spread) = or-false _ _ c2 in
      let blocking = Pass-at 0 (ml_checks ml) m in
      let missing = Pass-at 1 (ml_checks ml) m in
      record {
        not_forbidden = passed 0;
        not_shadow = shadow;
        not_shadow_in_phase = observed;
        spread_narrow =
            le_of_not_lt laws _ _ (tested-IsNumber _ spread) (tested-IsNumber _ max_spread)
              (passed 2);
        depth_enough =
            le_of_not_lt laws _ _ (tested-IsNumber _ min_depth) (tested-IsNumber _ depth)
              (passed 3);
        no_mismatch = passed 4;
        no_daily_hit = daily;
        no_weekly_hit = weekly;
        ml_not_blocking =
            clear_of ml.required ml.block (is_unavailable ml.verdict) blocking missing;
      }

  -- An approved signal has a positive entry price, a positive stop on its losing side and a positive
  -- edge; account, market and specification are fresh at the time of the decision and of the signal's
  -- symbol, which is a linear instrument in trading, with the funding known, a book that is not
  -- crossed and a positive equity; its strategy is not forbidden, nor marked for observation, nor one
  -- of those that are only observed in a phase up to 1; and neither spread or depth, nor a mismatch
  -- of positions, nor a loss limit, nor a required model verdict stands against it.
  -- This holds for every input, NaN and infinite values included.
  pub approved_inputs :
      (now : ℕ) (signal : SignalCandidate W) (ml : MlVerdict W) (account : AccountSnapshot W)
      (market : MarketSnapshot W) (specs : InstrumentSpec W) (cfg : RiskConfig W)
      (costs : CostModel W) (id : String) {d : Decision W}
      → approve_signal now signal ml account market specs cfg costs id ≡ Result.ok d
      → d.approved ≡ true
      → IsPriced signal
        × IsCurrent now signal account market specs
        × IsPermitted signal ml account market cfg
  approved_inputs now signal ml account market specs cfg costs id h a =
      let p = approved-Passed now signal ml account market specs cfg costs id h a in
      (
        priced signal cfg costs p.numeric p.lineage p.stop,
        current now signal account market specs p.runtime,
        permitted now signal ml account market specs cfg costs p.numeric p.runtime p.policy
            p.verdict,
      )
