-- ===== src/Reconciliation.antt =====
-- app/reconciliation: whether the local position and the exchange's agree, and whether a position is
-- protected.
pub mod Laws
mod Tests
use one_year_billion.Common.{
  Bool, true, false, not, ◌&&◌, ◌||◌, Option, none, some, List, [], ◌∷◌, String, ◌≟◌, if◌then◌else◌,
}
use one_year_billion.Common.Float.{Float, ◌<?◌, ◌⊖◌, nonzero, nonzero?}
use one_year_billion.Domain.{PositionState}

pub data Verdict : Type 0 where
  pass error_reconciliation_required : Verdict

pub data Mismatch : Type 0 where
  unknown_exchange_position missing_exchange_position position_mismatch
        active_without_verified_protection :
      Mismatch

abbrev pub Reconciled : Type 0
Reconciled = Verdict × List Mismatch

abbrev pub mismatch : Mismatch → Reconciled
mismatch m = (Verdict.error_reconciliation_required, m ∷ [])

abbrev pub agreed : Reconciled
agreed = (Verdict.pass, [])

pub data Action : Type 0 where
  ok reduce_only_exiting : Action

module _ {W : Type 0} ⦃f : Float W⦄ where
  -- `local.state == 'ACTIVE' and not (...)`
  abbrev pub unverified : PositionState W → Bool
  unverified p =
      p.state ≟ "ACTIVE" && not (p.protection_state ≟ "VALID" && p.reconciliation_status ≟ "PASS")

  unfoldable pub reconcile_position :
      Option (PositionState W) → Option (PositionState W) → Reconciled
  reconcile_position none none = agreed
  reconcile_position none (some exchange) =
      if nonzero exchange.qty then mismatch Mismatch.unknown_exchange_position else agreed
  reconcile_position (some local) none =
      if nonzero local.qty then mismatch Mismatch.missing_exchange_position else agreed
  reconcile_position (some local) (some exchange) =
      if not (local.symbol ≟ exchange.symbol) || f.lit 1 12 <? f.abs (local.qty ⊖ exchange.qty)
      then mismatch Mismatch.position_mismatch
      else if unverified local
      then mismatch Mismatch.active_without_verified_protection
      else agreed

  unfoldable pub protection_valid : PositionState W → Bool
  protection_valid p =
      nonzero p.qty
      && nonzero? p.sl_price
      && p.protection_state ≟ "VALID"
      && p.reconciliation_status ≟ "PASS"

  unfoldable pub watchdog_action : PositionState W → Action × List String
  watchdog_action p =
      if p.state ≟ "ACTIVE" && not (protection_valid p)
      then (Action.reduce_only_exiting, "missing_or_invalid_protection" ∷ [])
      else (Action.ok, [])
