-- ===== src/Reconciliation/Tests.antt =====
-- Runs of the reconciliation and the watchdog on concrete positions.
use one_year_billion.Common.{◌≡◌, ◌↔◌, refl, false, not, ◌&&◌, ◌≟◌, none, some}
use one_year_billion.Common.Float.{nonzero, nonzero?, ◌<?◌, ◌⊖◌}
use one_year_billion.Common.Int.{◌-ℤ◌}
use one_year_billion.Common.Fixed.{Fixed, fixed_float}
use one_year_billion.Domain.{PositionState, PositionSide}
use one_year_billion.Reconciliation.{Verdict, Action, reconcile_position, watchdog_action}
use one_year_billion.Reconciliation.Laws.{watchdog_matches_reconciliation}

abbrev position_1 : PositionState Fixed
position_1 = record {
  symbol = "BTCUSDT";
  side = PositionSide.long;
  qty = fixed_float.lit 5 1;
  avg_price = some (fixed_float.lit 100 0);
  liq_price = none;
  sl_price = some (fixed_float.lit 97 0);
  tp_price = none;
  state = "ACTIVE";
  protection_state = "VALID";
  reconciliation_status = "PASS";
  trace_id = "t1";
}

abbrev position_2 : PositionState Fixed
position_2 = record position_1 { trace_id = "exchange"; sl_price = none }

-- a position on the other side of the market
abbrev position_3 : PositionState Fixed
position_3 = record position_2 { side = PositionSide.short }

reconciled_1 : (reconcile_position (some position_1) (some position_2)).0 ≡ Verdict.pass
unfolding reconcile_position ◌-ℤ◌
reconciled_1 = refl

far_1 : (fixed_float.lit 1 12 <? fixed_float.abs (position_1.qty ⊖ position_2.qty)) ≡ false
unfolding ◌-ℤ◌
far_1 = refl

watchdog_matches_reconciliation_example : ((watchdog_action position_1).0 ≡ Action.ok) ↔ (
    ((reconcile_position (some position_1) (some position_2)).0 ≡ Verdict.pass)
    × (("ACTIVE" ≟ "ACTIVE" && not (nonzero position_1.qty && nonzero? position_1.sl_price))
        ≡ false))
watchdog_matches_reconciliation_example =
    watchdog_matches_reconciliation position_1 position_2 refl far_1
