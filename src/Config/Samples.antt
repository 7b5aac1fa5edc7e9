-- ===== src/Config/Samples.antt =====
-- Settings for the tests: those of a program that trades.
use one_year_billion.Common.{true, false}
use one_year_billion.Common.Int.{pos}
use one_year_billion.Config.Settings.{Settings}

abbrev pub settings_1 : Settings
settings_1 = record {
  app_name = "cas";
  app_env = "prod";
  database_url = "";
  operator_api_key = "operator-key-operator-key";
  readonly_api_key = "reader-key";
  trading_enabled = true;
  bybit_testnet = false;
  bybit_live_confirm = true;
  bybit_api_key = "k";
  bybit_api_secret = "s";
  bybit_recv_window_ms = pos 8000;
  bybit_time_sync_ttl_sec = pos 60;
  bybit_time_safety_margin_ms = pos 250;
  ollama_base_url = "";
  ollama_model = "";
  demo_mode = false;
  allow_demo_ml = false;
  enable_live_submit = true;
  require_db_for_live = true;
  require_live_preflight = true;
  require_go_nogo_for_live = true;
  live_go_nogo_passed = true;
  live_approved_by = "ann";
  min_paper_days_required = pos 14;
}
