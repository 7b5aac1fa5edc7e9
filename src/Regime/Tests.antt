-- ===== src/Regime/Tests.antt =====
-- Runs of the regime classifier on concrete values.
use one_year_billion.Common.{◌+◌, ◌≤◌, ◌≡◌, refl, true, false, none, [], ◌∷◌, Memᴰ, get, arith}
use one_year_billion.Common.Fixed.{Fixed, fixed_float}
use one_year_billion.Domain.{AccountSnapshot, MarketSnapshot, Regime}
use one_year_billion.Regime.Priority.{priority_index}
use one_year_billion.Regime.Classifier.{
  RegimeClassifier, Memory, new_classifier, classify, signposts, apply_cooldown_and_hysteresis,
}
use one_year_billion.Regime.Laws.Safety.{classify_never_riskier}
use one_year_billion.Regime.Laws.Cooldown.{after_sightings, cooldown_blocks_entries}
use one_year_billion.Regime.Laws.Hysteresis.{
  IsTrading, after_repeats, riskier_waits, riskier_arrives,
}

abbrev account_1 : AccountSnapshot Fixed
account_1 = record {
  equity_usdt = fixed_float.lit 10_000 0;
  available_balance_usdt = fixed_float.lit 9_000 0;
  phase = 1;
  account_mode = "runtime_checked";
  position_mismatch = false;
  daily_loss_hit = true;
  weekly_loss_hit = false;
  realized_negative_today_usdt = fixed_float.lit 400 0;
  realized_negative_week_usdt = fixed_float.lit 400 0;
  portfolio_abs_notional_usdt = fixed_float.lit 0 0;
  beta_adjusted_exposure_usdt = fixed_float.lit 0 0;
  fetched_at = 1;
  expires_at = 1_000;
}

-- a trend with news, and then stale
abbrev market_1 : MarketSnapshot Fixed
market_1 = record {
  symbol = "BTCUSDT";
  bid1 = fixed_float.lit 99 0;
  ask1 = fixed_float.lit 100 0;
  spread_bps = fixed_float.lit 2 0;
  depth_usdt = fixed_float.lit 2_000_000 0;
  funding_bps = fixed_float.lit 1 0;
  funding_fresh = true;
  volatility_bps = fixed_float.lit 50 0;
  atr_pct = fixed_float.lit 15 3;
  volume_z = fixed_float.lit 3 0;
  oi_delta_pct = fixed_float.lit 0 0;
  btc_aligned = true;
  structure_break = true;
  donchian_break = true;
  atr_expansion = true;
  oi_sanity = true;
  funding_sanity = true;
  range_width_bps = none;
  adx = none;
  fetched_at = 1;
  expires_at = 1_000;
}

unfoldable classifier_1 : RegimeClassifier
classifier_1 = new_classifier 2 300

classify_never_riskier_example :
    priority_index (classify classifier_1 500 market_1 account_1 false true "g1" "t1").0.regime
    ≤ priority_index Regime.news_risk
unfolding signposts
classify_never_riskier_example =
    classify_never_riskier classifier_1 500 market_1 account_1 false true "g1" "t1" _
      (Memᴰ.tail (Memᴰ.head refl)) refl

abbrev empty_memory : Memory
empty_memory = record {
  last_regime = [];
  pending_regime = [];
  pending_count = [];
  cooldown_until = [];
}

cooldown_blocks_entries_example :
    (apply_cooldown_and_hysteresis 2 300 "BTCUSDT" Regime.trend_up 90_000_000 (
      after_sightings 2 300 "BTCUSDT"
        (record { at = 1_000_000; candidate = Regime.de_risk }
          ∷ record { at = 60_000_000; candidate = Regime.range }
          ∷ [])
        empty_memory)).regime
    ≡ Regime.no_trade
cooldown_blocks_entries_example =
    cooldown_blocks_entries 2 300 "BTCUSDT" 1_000_000 90_000_000
      (record { at = 60_000_000; candidate = Regime.range } ∷ []) Regime.trend_up empty_memory
      (omega arith) (omega arith) (omega arith, tt) refl

-- BTCUSDT in a trend
abbrev memory_1 : Memory
memory_1 = record empty_memory { last_regime = ("BTCUSDT", Regime.trend_up) ∷ [] }

memory_1-IsTrading : IsTrading 3 300 "BTCUSDT" Regime.trend_up Regime.range none none memory_1
unfolding get
memory_1-IsTrading = record { calm = refl; last = refl; pending = refl; counted = refl }

riskier_waits_example :
    (apply_cooldown_and_hysteresis 3 300 "BTCUSDT" Regime.range 11
      (after_repeats 3 300 "BTCUSDT" Regime.trend_up Regime.range (λ n. n + 10) 1 memory_1)).regime
    ≡ Regime.trend_up
riskier_waits_example =
    riskier_waits 3 300 "BTCUSDT" Regime.trend_up Regime.range (omega arith) refl refl (omega arith)
      (λ n. n + 10) 1 memory_1 (omega arith) memory_1-IsTrading

riskier_arrives_example :
    (apply_cooldown_and_hysteresis 3 300 "BTCUSDT" Regime.range 12
      (after_repeats 3 300 "BTCUSDT" Regime.trend_up Regime.range (λ n. n + 10) 2 memory_1)).regime
    ≡ Regime.range
riskier_arrives_example =
    riskier_arrives 3 300 "BTCUSDT" Regime.trend_up Regime.range (omega arith) refl refl
      (omega arith) (λ n. n + 10) 1 memory_1 refl memory_1-IsTrading
