-- ===== src/Config/Runtime.antt =====
-- app/config/runtime.py: the typed configuration that the program is run with.
use one_year_billion.Common.{List, String}
use one_year_billion.Common.Int.{ℤ}
use one_year_billion.Common.Json.{Fields}
use one_year_billion.Risk.Cost.{CostModel}
use one_year_billion.Risk.Approval.Config.{RiskConfig}

pub record RuntimeConfig (W : Type 0) : Type 0 where
  pub raw : Fields
  pub config_hash : String
  pub phase : ℤ
  pub live_universe : List String
  pub live_strategies : List String
  pub shadow_strategies : List String
  pub risk : RiskConfig W
  pub costs : CostModel W
