-- ===== src/Reconciliation/Laws.antt =====
-- How the reconciliation and the watchdog agree on a position.
use one_year_billion.Common.{◌≡◌, ◌↔◌, true, false, not, ◌&&◌, some, arith, ◌≟◌}
use one_year_billion.Common.Float.{Float, ◌<?◌, ◌⊖◌, nonzero, nonzero?}
use one_year_billion.Domain.{PositionState}
use one_year_billion.Reconciliation.{
  Verdict, Action, reconcile_position, protection_valid, watchdog_action,
}

module _ {W : Type 0} ⦃f : Float W⦄ where
  -- Of a local position that agrees with the exchange's in symbol and quantity (the difference of
  -- the quantities does not exceed 1e-12), the watchdog and the reconciliation judge alike: the
  -- watchdog leaves it alone exactly where the reconciliation passes and the position has, if it is
  -- active, a quantity and a stop. So an active position that the reconciliation finds without
  -- verified protection is always closed, and one that passes is closed only for a missing
  -- quantity or stop.
  pub watchdog_matches_reconciliation :
      (local exchange : PositionState W)
      → (local.symbol ≟ exchange.symbol) ≡ true
      → (f.lit 1 12 <? f.abs (local.qty ⊖ exchange.qty)) ≡ false
      → ((watchdog_action local).0 ≡ Action.ok) ↔ (
          ((reconcile_position (some local) (some exchange)).0 ≡ Verdict.pass)
          × ((local.state ≟ "ACTIVE" && not (nonzero local.qty && nonzero? local.sl_price))
              ≡ false))
  unfolding watchdog_action protection_valid reconcile_position
  watchdog_matches_reconciliation local exchange same near = (λ h. ground arith, λ h. ground arith)
