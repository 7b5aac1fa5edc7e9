-- ===== src/Ml.antt =====
-- app/ml/inference.py: what a strategy's model says of its candidate. What `ModelRegistry.latest`
-- reads from a file is a parameter.
pub mod Laws
pub mod Labels
mod Tests
use one_year_billion.Common.{ℕ, Bool, true, false, not, Option, none, some, String, if◌then◌else◌}
use one_year_billion.Common.Float.{Float}
use one_year_billion.Domain.{SignalCandidate, MlVerdict, MlVerdictType, fresh_at}

pub record ModelInfo : Type 0 where
  pub model_id : String
  pub path : String
  pub feature_schema_hash : String
  pub created_at : ℕ
  pub expires_at : ℕ
  pub calibration_pass : Bool
  pub drift_pass : Bool

module _ {W : Type 0} ⦃f : Float W⦄ where
  -- the verdict of a model that fails a test
  abbrev pub blocked : String → ModelInfo → MlVerdict W
  blocked reason model = record {
    verdict = MlVerdictType.block;
    required = true;
    block = true;
    reason = reason;
    p_hit_2r = none;
    uncertainty = none;
    model_id = some model.model_id;
    feature_schema_hash = none;
  }

  -- the verdicts without a model: no candidate needs one, the demonstration, and none is there
  abbrev pub not_required : MlVerdict W
  not_required = record {
    verdict = MlVerdictType.allow;
    required = false;
    block = false;
    reason = "ml_not_required";
    p_hit_2r = none;
    uncertainty = none;
    model_id = none;
    feature_schema_hash = none;
  }

  abbrev pub demo_override : MlVerdict W
  demo_override = record {
    verdict = MlVerdictType.allow;
    required = true;
    block = false;
    reason = "demo_ml_override";
    p_hit_2r = some (f.lit 55 2);
    uncertainty = some (f.lit 25 2);
    model_id = some "demo";
    feature_schema_hash = none;
  }

  abbrev pub missing_model : MlVerdict W
  missing_model = record {
    verdict = MlVerdictType.unavailable;
    required = true;
    block = true;
    reason = "missing_model";
    p_hit_2r = none;
    uncertainty = none;
    model_id = none;
    feature_schema_hash = none;
  }

  abbrev pub healthy : ModelInfo → MlVerdict W
  healthy model = record {
    verdict = MlVerdictType.allow;
    required = true;
    block = false;
    reason = "model_health_pass";
    p_hit_2r = some (f.lit 51 2);
    uncertainty = some (f.lit 30 2);
    model_id = some model.model_id;
    feature_schema_hash = some model.feature_schema_hash;
  }

  unfoldable pub evaluate_model : ℕ → ModelInfo → MlVerdict W
  evaluate_model now model =
      if not (fresh_at now model.expires_at)
      then blocked "stale_model" model
      else if not model.calibration_pass
      then blocked "calibration_failure" model
      else if not model.drift_pass
      then blocked "drift_psi_breach" model
      else healthy model

  -- `MLGate.evaluate`
  unfoldable pub evaluate : (String → Option ModelInfo) → Bool → ℕ → SignalCandidate W → MlVerdict W
  evaluate latest allow_demo_ml now candidate =
      if not candidate.requires_ml then not_required else elim (latest candidate.strategy) [
        | none ↦ if allow_demo_ml then demo_override else missing_model
        | some model ↦ evaluate_model now model
      ]
