-- ===== src/Execution/Lifecycle.antt =====
-- app/execution/state_machine.py: the transitions of an order's state.
pub mod Laws
use one_year_billion.Common.{
  ℕ, Bool, true, false, ◌&&◌, ◌||◌, List, [], ◌∷◌, String, ◌≟◌, ◌==◌, Result, raise_if,
}
use one_year_billion.Domain.{
  OrderState, pending_signal, risk_rejected, approved, order_submitted, partially_filled, filled,
  protected_with_sltp, reduce_only_exiting, closed, error_reconciliation_required, blocked, de_risk,
}

-- equality of the enumeration, by the place of each member in it
abbrev pub ordinal : OrderState → ℕ
ordinal pending_signal = 0
ordinal risk_rejected = 1
ordinal approved = 2
ordinal order_submitted = 3
ordinal partially_filled = 4
ordinal filled = 5
ordinal protected_with_sltp = 6
ordinal reduce_only_exiting = 7
ordinal closed = 8
ordinal error_reconciliation_required = 9
ordinal blocked = 10
ordinal de_risk = 11

-- `ALLOWED`
allowed : OrderState → List OrderState
allowed pending_signal = approved ∷ risk_rejected ∷ blocked ∷ []
allowed risk_rejected = closed ∷ []
allowed approved = order_submitted ∷ blocked ∷ []
allowed order_submitted = partially_filled ∷ filled ∷ closed ∷ error_reconciliation_required ∷ []
allowed partially_filled = filled ∷ reduce_only_exiting ∷ error_reconciliation_required ∷ []
allowed filled = protected_with_sltp ∷ reduce_only_exiting ∷ error_reconciliation_required ∷ []
allowed protected_with_sltp = reduce_only_exiting ∷ closed ∷ error_reconciliation_required ∷ []
allowed reduce_only_exiting = closed ∷ error_reconciliation_required ∷ []
allowed closed = pending_signal ∷ []
allowed error_reconciliation_required = reduce_only_exiting ∷ closed ∷ blocked ∷ []
allowed blocked = pending_signal ∷ []
allowed de_risk = reduce_only_exiting ∷ closed ∷ blocked ∷ []

contains : OrderState → List OrderState → Bool
contains s [] = false
contains s (t ∷ ts) = ordinal s == ordinal t || contains s ts

unfoldable pub can_transition : OrderState → OrderState → Bool
unfolding allowed contains
can_transition src dst = contains dst (allowed src)

-- the state after the assertion, which is `dst` unless it raises
pub record ForbiddenTransition : Type 0 where
  pub src : OrderState
  pub dst : OrderState

unfoldable pub assert_transition : OrderState → OrderState → Result ForbiddenTransition (Unit {0})
assert_transition src dst = elim (can_transition src dst) [
  | true ↦ Result.ok tt
  | false ↦ Result.raised (record { src = src; dst = dst })
]

unfoldable pub active_allowed : String → String → Bool
active_allowed protection_state reconciliation_status =
    protection_state ≟ "VALID" && reconciliation_status ≟ "PASS"
