-- ===== src/Execution/Submission/Decision.antt =====
-- `verify_live_risk_decision` of app/db/repository.py: the decision of a request against the one that
-- the database has.
pub mod Laws
use Prim.Native.String.{◌++◌}
use one_year_billion.Common.{
  ℕ, Bool, true, false, ◌&&◌, ◌||◌, not, leb, Option, none, some, List, [], ◌∷◌, ◌++◌ as append,
  String, ◌≟◌, Guard, ◌⇒◌, collect, if◌then◌else◌,
}
use one_year_billion.Common.Float.{Float, ◌<?◌, ◌<=?◌, ◌⊖◌, ◌⊗◌, nought, py_max}
use one_year_billion.Domain.{RiskDecision}

-- A row of `risk_decisions`. `expires_at` is none where it is no datetime, and `sizing field` is
-- none where the field is missing, with none inside where `float` raises.
pub record DecisionRow (W : Type 0) : Type 0 where
  pub approved : Bool
  pub expires_at : Option ℕ
  pub signal_id : String
  pub feature_hash : String
  pub config_hash : String
  pub sizing : String → Option (Option W)

abbrev pub is_expired : ℕ → Option ℕ → Bool
is_expired now none = false
is_expired now (some at) = leb at now

module _ {W : Type 0} ⦃f : Float W⦄ where
  -- `max(abs(db_value), abs(payload_value), 1.0) * 1e-9`
  abbrev pub tolerance : W → W → W
  tolerance db_value payload_value =
      py_max (py_max (f.abs db_value) (f.abs payload_value)) (f.lit 1 0) ⊗ f.lit 1 9

  abbrev pub differs : W → W → Bool
  differs db_value payload_value =
      tolerance db_value payload_value <? f.abs (db_value ⊖ payload_value)

  -- the reason of one field of the sizing
  unfoldable pub field_guard : String → Option (Option W) → W → Guard String
  field_guard name none payload_value = true ⇒ ("risk_decision_db_sizing_missing:" ++ name)
  field_guard name (some none) payload_value = true ⇒ ("risk_decision_db_sizing_invalid:" ++ name)
  field_guard name (some (some db_value)) payload_value =
      differs db_value payload_value ⇒ ("risk_decision_sizing_mismatch_db:" ++ name)

  unfoldable pub field_guards : DecisionRow W → List (String × W) → List (Guard String)
  unfolding field_guard
  field_guards row [] = []
  field_guards row ((name, v) ∷ fields) =
      field_guard name (row.sizing name) v ∷ field_guards row fields

  -- `float(db_sizing.get(name, default))`
  abbrev pub number_or : W → Option (Option W) → Option W
  number_or default none = some default
  number_or default (some v) = v

  abbrev pub edge_guards : Option W → List (Guard String)
  edge_guards none = true ⇒ "risk_decision_db_sizing_invalid" ∷ []
  edge_guards (some edge) = (edge <=? nought) ⇒ "risk_decision_db_no_positive_net_edge" ∷ []

  abbrev pub budget_guards : Option W → Option W → Option W → List (Guard String)
  budget_guards (some loss) (some budget) edge =
      (budget <? loss) ⇒ "risk_decision_db_sizing_breaks_budget" ∷ edge_guards edge
  budget_guards _ _ edge = true ⇒ "risk_decision_db_sizing_invalid" ∷ []

  -- the tests of the budget and of the edge
  abbrev pub stored_guards : DecisionRow W → List (Guard String)
  stored_guards row =
      budget_guards (number_or nought (row.sizing "max_loss_if_stop"))
        (number_or (f.neg (f.lit 1 0)) (row.sizing "risk_budget"))
        (number_or nought (row.sizing "expected_net_edge_bps"))

module _ {W R : Type 0} ⦃f : Float W⦄ where
  unfoldable pub identity_guards : ℕ → DecisionRow W → RiskDecision W R → List (Guard String)
  identity_guards now row risk =
      not row.approved ⇒ "risk_decision_not_approved_in_db"
      ∷ is_expired now row.expires_at ⇒ "risk_decision_expired_in_db"
      ∷ not (row.signal_id ≟ risk.signal_id) ⇒ "risk_decision_signal_mismatch_db"
      ∷ not (row.feature_hash ≟ risk.feature_hash) ⇒ "risk_decision_feature_hash_mismatch_db"
      ∷ not (row.config_hash ≟ risk.config_hash) ⇒ "risk_decision_config_hash_mismatch_db"
      ∷ []

  -- the fields that are compared, with the values of the request
  abbrev pub compared : RiskDecision W R → List (String × W)
  compared risk =
      ("qty", risk.sizing.qty)
      ∷ ("notional", risk.sizing.notional)
      ∷ ("risk_budget", risk.sizing.risk_budget)
      ∷ ("max_loss_if_stop", risk.sizing.max_loss_if_stop)
      ∷ ("expected_net_edge_bps", risk.sizing.expected_net_edge_bps)
      ∷ []

  unfoldable pub decision_guards : ℕ → DecisionRow W → RiskDecision W R → List (Guard String)
  unfolding identity_guards field_guards
  decision_guards now row risk =
      append (identity_guards now row risk)
        (append (field_guards row (compared risk)) (stored_guards row))

  -- the reasons; the decision is verified where there is none
  unfoldable pub verify_live_risk_decision :
      ℕ → Option (DecisionRow W) → RiskDecision W R → List String
  unfolding decision_guards
  verify_live_risk_decision now none risk = "risk_decision_not_persisted" ∷ []
  verify_live_risk_decision now (some row) risk = collect (decision_guards now row risk)
