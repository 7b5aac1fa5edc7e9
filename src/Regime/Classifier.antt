-- ===== src/Regime/Classifier.antt =====
-- `RegimeClassifier` of app/regime/classifier.py. A decision's random identifiers are arguments; a
-- `datetime` counts microseconds. Its `thresholds_snapshot` repeats constants and is left out.
use one_year_billion.Common.{
  ℕ, suc, ◌+◌, ◌*◌, leb, ltb, ◌==◌, Bool, false, not, ◌&&◌, ◌||◌, Option, none, some, List, [], ◌∷◌,
  ◌++◌, String, Dict, get, put, pop, if◌then◌else◌, any, is_empty,
}
use one_year_billion.Common.Float.{Float, ◌<?◌, ◌<=?◌, py_max}
use one_year_billion.Domain.{AccountSnapshot, MarketSnapshot, Regime, RegimeDecision, fresh_at}
use one_year_billion.Regime.Priority.{
  priority_index, same_regime, is_immediate, is_normal, safer_regime,
}

-- The texts that the source appends to `reasons`.
pub data Reason : Type 0 where
  kill_switch_or_loss_limit llm_or_operator_news_risk stale_market_account_or_funding
        liquidation_or_oi_flush_risk high_volatility volume_expansion_btc_aligned
        low_atr_tight_spread low_volatility_low_participation no_safe_permission
        regime_cooldown_no_new_entries :
      Reason
  hysteresis_pending : Regime → Reason
  hysteresis_wait : Regime → ℕ → ℕ → Reason
  mixed_regime_choose_safer : List Regime → Reason

-- `_Memory`
pub record Memory : Type 0 where
  pub last_regime : Dict Regime
  pub pending_regime : Dict Regime
  pub pending_count : Dict ℕ
  pub cooldown_until : Dict ℕ

pub record RegimeClassifier : Type 0 where
  pub hysteresis_bars : ℕ
  pub cooldown_seconds : ℕ
  pub memory : Memory

-- the constructor; a negative number acts as 0
unfoldable pub new_classifier : ℕ → ℕ → RegimeClassifier
new_classifier hysteresis_bars cooldown_seconds = record {
  hysteresis_bars = if ltb hysteresis_bars 1 then 1 else hysteresis_bars;
  cooldown_seconds = cooldown_seconds;
  memory = record {
    last_regime = [];
    pending_regime = [];
    pending_count = [];
    cooldown_until = [];
  };
}

-- One `if` of `_raw_candidates`: its condition, what it appends, and the new confidence.
pub record Signpost (W : Type 0) : Type 0 where
  pub holds : Bool
  pub regime : Regime
  pub reason : Reason
  pub confidence : W → W

pub record RawCandidates (W : Type 0) : Type 0 where
  pub candidates : List Regime
  pub reasons : List Reason
  pub confidence : W

unfoldable pub follow : {W : Type 0} → List (Signpost W) → W → RawCandidates W
follow [] c = record { candidates = []; reasons = []; confidence = c }
follow (p ∷ ps) c =
    let rest = follow ps (if p.holds then p.confidence c else c) in
    if p.holds
    then record rest { candidates = p.regime ∷ rest.candidates; reasons = p.reason ∷ rest.reasons }
    else rest

-- `if not candidates: ...`
abbrev pub or_no_trade : {W : Type 0} → RawCandidates W → RawCandidates W
or_no_trade r =
    if is_empty r.candidates
    then record r {
      candidates = Regime.no_trade ∷ [];
      reasons = r.reasons ++ Reason.no_safe_permission ∷ [];
    }
    else r

-- `len(set(candidates)) > 1`
abbrev pub is_mixed : List Regime → Bool
is_mixed [] = false
is_mixed (r ∷ rs) = any (λ s. not (same_regime r s)) rs

-- `safer_regime(*candidates)`; the list is never empty, on which `min` would raise
abbrev pub safest : List Regime → Regime
safest [] = Regime.no_trade
safest (r ∷ rs) = safer_regime r rs

module _ {W : Type 0} (now : ℕ) (market : MarketSnapshot W) (account : AccountSnapshot W) where
  abbrev pub is_stale : Bool
  is_stale =
      not (fresh_at now market.expires_at)
      || not (fresh_at now account.expires_at)
      || not market.funding_fresh

module _ {W : Type 0} ⦃f : Float W⦄ (now : ℕ) (market : MarketSnapshot W)
    (account : AccountSnapshot W) (kill_switch news_risk : Bool) where
  unfoldable pub signposts : List (Signpost W)
  signposts =
      record {
        holds = kill_switch || account.daily_loss_hit || account.weekly_loss_hit;
        regime = Regime.de_risk;
        reason = Reason.kill_switch_or_loss_limit;
        confidence = λ c. f.lit 10 1;
      }
      ∷ record {
        holds = news_risk;
        regime = Regime.news_risk;
        reason = Reason.llm_or_operator_news_risk;
        confidence = λ c. py_max c (f.lit 8 1);
      }
      ∷ record {
        holds = is_stale now market account;
        regime = Regime.no_trade;
        reason = Reason.stale_market_account_or_funding;
        confidence = λ c. f.lit 10 1;
      }
      ∷ record {
        holds = market.oi_delta_pct <=? f.neg (f.lit 120 1) && f.lit 120 0 <? market.volatility_bps;
        regime = Regime.liquidation;
        reason = Reason.liquidation_or_oi_flush_risk;
        confidence = λ c. py_max c (f.lit 85 2);
      }
      ∷ record {
        holds = f.lit 250 0 <? market.volatility_bps || f.lit 4 2 <? market.atr_pct;
        regime = Regime.high_vol;
        reason = Reason.high_volatility;
        confidence = λ c. py_max c (f.lit 7 1);
      }
      ∷ record {
        holds =
            f.lit 2 0 <=? market.volume_z && f.lit 12 3 <=? market.atr_pct && market.btc_aligned;
        regime = Regime.trend_up;
        reason = Reason.volume_expansion_btc_aligned;
        confidence = λ c. py_max c (f.lit 65 2);
      }
      ∷ record {
        holds = market.atr_pct <=? f.lit 18 3 && market.spread_bps <=? f.lit 30 1;
        regime = Regime.range;
        reason = Reason.low_atr_tight_spread;
        confidence = λ c. py_max c (f.lit 6 1);
      }
      ∷ record {
        holds = market.atr_pct <=? f.lit 6 3 && market.volume_z <? f.lit 5 1;
        regime = Regime.low_vol;
        reason = Reason.low_volatility_low_participation;
        confidence = λ c. py_max c (f.lit 55 2);
      }
      ∷ []

  unfoldable pub raw_candidates : RawCandidates W
  raw_candidates = or_no_trade (follow signposts (f.lit 5 1))

-- What `_apply_cooldown_and_hysteresis` returns, what it appends to `reasons`, and the memory.
pub record Settled : Type 0 where
  pub regime : Regime
  pub notes : List Reason
  pub memory : Memory

-- `self._memory.last_regime[symbol] = regime`
abbrev pub remember : String → Regime → Memory → Memory
remember symbol r m = record m { last_regime = put symbol r m.last_regime }

-- ... and the two `pop`s that follow it
abbrev pub forget_pending : String → Memory → Memory
forget_pending symbol m = record m {
  pending_regime = pop symbol m.pending_regime;
  pending_count = pop symbol m.pending_count;
}

abbrev pub is_pending : Regime → Option Regime → Bool
is_pending r none = false
is_pending r (some p) = same_regime p r

abbrev pub or_zero : Option ℕ → ℕ
or_zero none = 0
or_zero (some n) = n

abbrev pub is_before : ℕ → Option ℕ → Bool
is_before now none = false
is_before now (some t) = ltb now t

module _ (bars cooldown_seconds : ℕ) (symbol : String) (candidate : Regime) where
  -- the first `if`
  unfoldable pub begin_cooldown : ℕ → Memory → Memory
  begin_cooldown now m =
      if same_regime candidate Regime.de_risk && not (cooldown_seconds == 0)
      then record m {
        cooldown_until = put symbol (now + cooldown_seconds * 1000000) m.cooldown_until;
      }
      else m

  -- from the test of `hysteresis_bars` on: the candidate is riskier than the previous regime
  unfoldable pub await_riskier : Regime → Memory → Settled
  await_riskier previous m =
      let count = suc (or_zero (get symbol m.pending_count)) in
      if leb bars 1
      then record { regime = candidate; notes = []; memory = remember symbol candidate m }
      else if not (is_pending candidate (get symbol m.pending_regime))
      then record {
        regime = safer_regime previous (candidate ∷ []);
        notes = Reason.hysteresis_pending candidate ∷ [];
        memory = record m {
          pending_regime = put symbol candidate m.pending_regime;
          pending_count = put symbol 1 m.pending_count;
        };
      }
      else if leb bars count
      then record {
        regime = candidate;
        notes = [];
        memory = forget_pending symbol (
            remember symbol candidate
              (record m { pending_count = put symbol count m.pending_count }));
      }
      else record {
        regime = safer_regime previous (candidate ∷ []);
        notes = Reason.hysteresis_wait candidate count bars ∷ [];
        memory = record m { pending_count = put symbol count m.pending_count };
      }

  abbrev pub switches_at_once : Regime → Bool
  switches_at_once previous =
      is_immediate candidate
      || is_immediate previous
      || same_regime candidate previous
      || ltb (priority_index candidate) (priority_index previous)

  unfoldable pub settle : Option Regime → Memory → Settled
  settle none m = record {
    regime = candidate;
    notes = [];
    memory = forget_pending symbol (remember symbol candidate m);
  }
  settle (some previous) m =
      if switches_at_once previous
      then record {
        regime = candidate;
        notes = [];
        memory = forget_pending symbol (remember symbol candidate m);
      }
      else await_riskier previous m

  unfoldable pub apply_cooldown_and_hysteresis : ℕ → Memory → Settled
  apply_cooldown_and_hysteresis now m =
      let begun = begin_cooldown now m in
      if is_before now (get symbol begun.cooldown_until) && is_normal candidate
      then record {
        regime = Regime.no_trade;
        notes = Reason.regime_cooldown_no_new_entries ∷ [];
        memory = remember symbol Regime.no_trade begun;
      }
      else settle (get symbol begun.last_regime) begun

module _ {W : Type 0} ⦃f : Float W⦄ where
  unfoldable pub classify :
      RegimeClassifier
      → ℕ
      → MarketSnapshot W
      → AccountSnapshot W
      → Bool
      → Bool
      → String
      → String
      → RegimeDecision W Reason × RegimeClassifier
  classify classifier now market account kill_switch news_risk regime_id trace_id =
      let raw = raw_candidates now market account kill_switch news_risk in
      let mixed =
        if is_mixed raw.candidates
        then Reason.mixed_regime_choose_safer raw.candidates ∷ []
        else [] in
      let settled =
        apply_cooldown_and_hysteresis classifier.hysteresis_bars classifier.cooldown_seconds
          market.symbol (safest raw.candidates) now classifier.memory in
      (
        record {
          regime_id = regime_id;
          symbol = market.symbol;
          regime = settled.regime;
          confidence = raw.confidence;
          reasons = raw.reasons ++ (mixed ++ settled.notes);
          trace_id = trace_id;
        },
        record classifier { memory = settled.memory },
      )
