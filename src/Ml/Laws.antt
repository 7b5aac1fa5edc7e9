-- ===== src/Ml/Laws.antt =====
-- What an approval says of the model that was asked.
use mathlib.Core.Path.{subst}
use mathlib.Core.Bool.{false≢true}
use one_year_billion.Common.{
  ℕ, ◌<◌, ◌≡◌, ap, true, false, Bool, not, ◌&&◌, ◌||◌, Option, some, String, Option-cases, inl, inr,
  Result, arith,
}
use one_year_billion.Common.Float.{Float, IsIeee}
use one_year_billion.Domain.{
  SignalCandidate, AccountSnapshot, MarketSnapshot, InstrumentSpec, MlVerdict,
}
use one_year_billion.Risk.Cost.{CostModel}
use one_year_billion.Risk.Approval.Config.{RiskConfig}
use one_year_billion.Risk.Approval.Checks.{is_unavailable}
use one_year_billion.Risk.Approval.Decide.{Decision, approve_signal}
use one_year_billion.Risk.Approval.Laws.Inputs.{approved_inputs}
use one_year_billion.Ml.{ModelInfo, evaluate, evaluate_model, missing_model}

-- A model that may let a candidate pass.
pub record IsHealthy (now : ℕ) (model : ModelInfo) : Type 0 where
  pub fresh : now < model.expires_at
  pub calibrated : model.calibration_pass ≡ true
  pub undrifted : model.drift_pass ≡ true

-- The gate's verdict is taken as the risk engine takes it.
abbrev lets_pass : {W : Type 0} → MlVerdict W → Bool
lets_pass v = not (v.required && (v.block || is_unavailable v.verdict))

model-IsHealthy :
    (W : Type 0) ⦃f : Float W⦄ (now : ℕ) (model : ModelInfo)
    → lets_pass (evaluate_model {W = W} now model) ≡ true
    → IsHealthy now model
unfolding evaluate_model
model-IsHealthy W now model h = record {
  fresh = ground arith;
  calibrated = ground arith;
  undrifted = ground arith;
}

module _ {W : Type 0} ⦃f : Float W⦄ where
  passing-IsHealthy :
      (latest : String → Option ModelInfo) (now : ℕ) (signal : SignalCandidate W)
      → signal.requires_ml ≡ true
      → lets_pass (evaluate latest false now signal) ≡ true
      → (model : ModelInfo) × (latest signal.strategy ≡ some model) × IsHealthy now model
  unfolding evaluate
  passing-IsHealthy latest now signal needed h = elim (Option-cases (latest signal.strategy)) [
    | inl e ↦
        let missing : evaluate latest false now signal ≡ missing_model =
          ground (arith, needed, e) in
        absurd (false≢true (subst (λ v. lets_pass v ≡ true) missing h))
    | inr (model, e) ↦
        let asked : evaluate latest false now signal ≡ evaluate_model now model =
          ground (arith, needed, e) in
        (model, e, model-IsHealthy W now model (subst (λ v. lets_pass v ≡ true) asked h))
  ]

  -- Without the override for demonstrations, a signal that requires a model is approved on the gate's
  -- verdict only if its strategy has a model that was fresh, calibrated and without drift when the gate
  -- was asked.
  pub approved-IsHealthy :
      (laws : IsIeee W) (latest : String → Option ModelInfo) (asked now : ℕ)
      (signal : SignalCandidate W) (account : AccountSnapshot W) (market : MarketSnapshot W)
      (specs : InstrumentSpec W) (cfg : RiskConfig W) (costs : CostModel W) (id : String)
      {d : Decision W}
      → signal.requires_ml ≡ true
      → approve_signal now signal
          (evaluate latest false asked signal)
          account
          market
          specs
          cfg
          costs
          id
        ≡ Result.ok d
      → d.approved ≡ true
      → (model : ModelInfo) × (latest signal.strategy ≡ some model) × IsHealthy asked model
  approved-IsHealthy laws latest asked now signal account market specs cfg costs id needed h a =
      let (_, _, permitted) =
        approved_inputs laws now signal (evaluate latest false asked signal) account market specs
          cfg costs id h a in
      passing-IsHealthy latest asked signal needed (ap not permitted.ml_not_blocking)
