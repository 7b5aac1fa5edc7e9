-- ===== src/Execution/Submission/Decision/Laws.antt =====
-- What a verified decision has in common with the one in the database.
use one_year_billion.Common.{
  ℕ, true, false, ◌≡◌, refl, Option, none, some, List, [], ◌∷◌, ◌++◌ as append, String, ≟→≡,
  is_empty, All, Pass, Pass-collect, Pass-append, not-false,
}
use one_year_billion.Common.Float.{Float, IsIeee, IsNumber, ◌<=?◌, ◌⊖◌, le_of_not_lt}
use one_year_billion.Domain.{RiskDecision}
use one_year_billion.Execution.Submission.Decision.{
  DecisionRow, is_expired, identity_guards, tolerance, field_guard, compared, field_guards,
  stored_guards, decision_guards, verify_live_risk_decision,
}

module _ {W : Type 0} ⦃f : Float W⦄ where
  -- The database has a number for the field. Where the difference to the value and the tolerance
  -- are numbers, the difference is within the tolerance.
  abbrev pub Agrees : DecisionRow W → String × W → Type 0
  Agrees row field =
      (v : W) × (row.sizing field.0 ≡ some (some v))
      × (IsNumber (f.abs (v ⊖ field.1))
          → IsNumber (tolerance v field.1)
          → (f.abs (v ⊖ field.1) <=? tolerance v field.1) ≡ true)

  field_agrees :
      (laws : IsIeee W) (name : String) (o : Option (Option W)) (p : W)
      → (field_guard name o p).fails ≡ false
      → (v : W) × (o ≡ some (some v))
        × (IsNumber (f.abs (v ⊖ p))
            → IsNumber (tolerance v p)
            → (f.abs (v ⊖ p) <=? tolerance v p) ≡ true)
  unfolding field_guard
  field_agrees laws name none p h = cc
  field_agrees laws name (some none) p h = cc
  field_agrees laws name (some (some v)) p h = (v, refl, λ m n. le_of_not_lt laws _ _ m n h)

  fields_agree :
      (laws : IsIeee W) (row : DecisionRow W) (fields : List (String × W))
      → Pass (field_guards row fields)
      → All (Agrees row) fields
  unfolding field_guards
  fields_agree laws row [] h = tt
  fields_agree laws row ((name, p) ∷ fields) (h, rest) =
      (field_agrees laws name (row.sizing name) p h, fields_agree laws row fields rest)

module _ {W R : Type 0} ⦃f : Float W⦄ where
  -- A decision that is verified is approved in the database, which holds it for the same signal,
  -- features and configuration, with numbers for the quantity, the notional, the budget, the loss
  -- at the stop and the edge. Those of the request differ from them by at most the tolerance, where
  -- the difference and the tolerance are numbers: a NaN or infinite size of the request is not
  -- excluded. A time of expiry that the stored decision has has not come.
  pub verified_decision_stored :
      (laws : IsIeee W) (now : ℕ) (row : DecisionRow W) (risk : RiskDecision W R)
      → is_empty (verify_live_risk_decision now (some row) risk) ≡ true
      → (row.approved ≡ true)
        × (is_expired now row.expires_at ≡ false)
        × (row.signal_id ≡ risk.signal_id)
        × (row.feature_hash ≡ risk.feature_hash)
        × (row.config_hash ≡ risk.config_hash)
        × All (Agrees row) (compared risk)
  unfolding verify_live_risk_decision decision_guards identity_guards
  verified_decision_stored laws now row risk h =
      let passed = Pass-collect (decision_guards now row risk) h in
      let ((approved, (current, (signal, (feature, (config, _))))), later) =
        Pass-append (identity_guards now row risk)
          (append (field_guards row (compared risk)) (stored_guards row)) passed in
      let (sizes, _) = Pass-append (field_guards row (compared risk)) (stored_guards row) later in
      (
        not-false row.approved approved,
        current,
        ≟→≡ row.signal_id risk.signal_id (not-false _ signal),
        ≟→≡ row.feature_hash risk.feature_hash (not-false _ feature),
        ≟→≡ row.config_hash risk.config_hash (not-false _ config),
        fields_agree laws row (compared risk) sizes,
      )
