-- ===== src/Live/Tests.antt =====
-- The preflight and the gate on concrete settings and answers.
use one_year_billion.Common.{
  ◌⊎◌, List, true, false, ◌≡◌, refl, Option, none, some, [], ◌∷◌, String, Result, is_ok, is_empty,
  get, put, lower, sorted_set,
}
use one_year_billion.Common.Fixed.{Fixed, fixed_float}
use one_year_billion.Common.Int.{pos}
use one_year_billion.Common.Json.{Json, Items, Fields, truthy_json}
use one_year_billion.Config.Samples.{settings_1}
use one_year_billion.Config.Runtime.{RuntimeConfig}
use one_year_billion.Risk.Cost.{default_costs}
use one_year_billion.Risk.Approval.Config.{default_risk_config}
use one_year_billion.Live.Report.{result_ok}
use one_year_billion.Live.ExchangeChecks.{Adapter, api_key_permissions_allow_linear_trade}
use one_year_billion.Live.Preflight.{Repository, run_live_preflight}
use one_year_billion.Live.Preflight.Exact.{
  live_ready, testnet_ready, testnet_preflight_exact, blocked_preflight_has_reason,
}
use one_year_billion.Live.Evidence.{live_evidence_status}
use one_year_billion.Live.Evidence.Table.{
  EvidenceRecord, select_paper, select_evidence, first_where,
}
use one_year_billion.Live.Evidence.Laws.{HasPassed, HasPaper, live_evidence_coherent}
use one_year_billion.Common.Float.{◌<?◌, nought}
use one_year_billion.Live.Gate.{assert_live_submit_allowed}
use one_year_billion.Live.Gate.Laws.{
  database, least_days, live_gate_exact, live_gate_needs_evidence,
}

-- in place of `str`, `float` and `json.dumps`
abbrev as_text : Json → String
as_text (Json.str s) = s
as_text _ = ""

abbrev as_float : Json → Option Fixed
as_float (Json.int (pos n)) = some (fixed_float.lit n 0)
as_float (Json.str _) = some (fixed_float.lit 5 0)
as_float _ = none

abbrev as_json_text : Json → String
as_json_text (Json.str s) = s
as_json_text (Json.object (Fields.field k v _)) = k
as_json_text _ = ""

abbrev runtime_1 : RuntimeConfig Fixed
runtime_1 = record {
  raw = Fields.no_fields;
  config_hash = "h1";
  phase = pos 0;
  live_universe = "BTCUSDT" ∷ [];
  live_strategies = "breakout" ∷ [];
  shadow_strategies = [];
  risk = default_risk_config;
  costs = default_costs;
}

abbrev one : Json → Json
one v = Json.array (Items.item v Items.end)

abbrev instrument : Fields
instrument =
    Fields.field "result"
      (Json.object (
        Fields.field "list"
          (one (
            Json.object (
              Fields.field "symbol" (Json.str "BTCUSDT") (
                Fields.field "status" (Json.str "Trading") (
                  Fields.field "lotSizeFilter"
                    (Json.object (
                      Fields.field "qtyStep" (Json.str "0.001") (
                        Fields.field "minOrderQty" (Json.str "0.001")
                          (Fields.field "minNotionalValue" (Json.str "5") Fields.no_fields))))
                    (Fields.field "priceFilter"
                      (Json.object (Fields.field "tickSize" (Json.str "0.1") Fields.no_fields))
                      (Fields.field "leverageFilter"
                        (Json.object (Fields.field "maxLeverage" (Json.str "100") Fields.no_fields))
                        Fields.no_fields)))))))
          Fields.no_fields))
      Fields.no_fields

abbrev reply : Json → Fields
reply v = Fields.field "result" v Fields.no_fields

abbrev key_info : Json → Fields
key_info permissions =
    reply (Json.object (Fields.field "ContractTrade" permissions Fields.no_fields))

abbrev adapter_1 : Adapter
adapter_1 = record {
  sync_time = some (Result.ok (reply (Json.str "1")));
  time_sync_status = none;
  final_time_sync_status = none;
  get_server_time = Result.ok (reply (Json.str "1"));
  runtime_instruments_info = λ _. Result.ok instrument;
  get_api_key_info = Result.ok (key_info (one (Json.str "Order")));
  get_wallet_balance = λ _. Result.ok (reply Json.null);
  get_positions = Result.ok (reply (Json.array Items.end));
}

abbrev evidence : String → EvidenceRecord
evidence evidence_type = record {
  evidence_type = evidence_type;
  status = "PASS";
  config_hash = "h1";
  timed = true;
  days = Json.int (pos 20);
  columns = Fields.field "status" (Json.str "PASS") Fields.no_fields;
}

abbrev table_1 : List EvidenceRecord
table_1 =
    evidence "GO_NO_GO"
    ∷ evidence "CI"
    ∷ evidence "SECURITY"
    ∷ evidence "RECONCILIATION"
    ∷ evidence "PHASE0_PAPER"
    ∷ []

abbrev database_1 : Repository
database_1 =
    database as_text as_float as_json_text settings_1 runtime_1 true adapter_1 table_1 table_1
      (Result.ok [])

testnet_preflight_exact_example :
    result_ok (
      run_live_preflight as_text as_float as_json_text settings_1 runtime_1 true
        (some database_1)
        adapter_1
        "testnet")
    ≡ testnet_ready as_text as_float as_json_text settings_1 runtime_1 true
        (some database_1)
        adapter_1
testnet_preflight_exact_example =
    testnet_preflight_exact as_text as_float as_json_text settings_1 runtime_1 true
      (some database_1) adapter_1

blocked_preflight_has_reason_example :
    (let p =
        run_live_preflight as_text as_float as_json_text settings_1 runtime_1 false none adapter_1
          "live" in
      is_empty p.reasons ≡ result_ok p)
blocked_preflight_has_reason_example =
    blocked_preflight_has_reason as_text as_float as_json_text settings_1 runtime_1 false none
      adapter_1 "live" tt

live_gate_exact_example :
    is_ok (
      assert_live_submit_allowed as_text as_float as_json_text settings_1 runtime_1 true
        (some database_1)
        adapter_1)
    ≡ live_ready as_text as_float as_json_text settings_1 runtime_1 true (some database_1) adapter_1
unfolding select_paper select_evidence
live_gate_exact_example =
    live_gate_exact as_text as_float as_json_text settings_1 runtime_1 true adapter_1
      (some database_1)
      (live_evidence_coherent as_float (select_paper table_1) (select_evidence table_1))

live_gate_needs_evidence_example :
    (let least =
        least_days as_text as_float as_json_text settings_1 runtime_1 true adapter_1 table_1 table_1
          (Result.ok []) in
      HasPassed table_1 "RECONCILIATION" "h1"
      × HasPassed table_1 "SECURITY" "h1"
      × HasPassed table_1 "CI" "h1"
      × HasPassed table_1 "GO_NO_GO" "h1"
      × (((nought <? least) ≡ false) ⊎ HasPaper as_float table_1 "h1" least))
unfolding assert_live_submit_allowed truthy_json lower live_evidence_status put get sorted_set
    select_paper select_evidence first_where
live_gate_needs_evidence_example =
    live_gate_needs_evidence as_text as_float as_json_text settings_1 runtime_1 true adapter_1
      table_1 table_1 (Result.ok []) refl refl

-- A key whose list of contract permissions is empty passes the test of the permissions: the name of
-- the list is enough.
empty_permissions_pass :
    api_key_permissions_allow_linear_trade as_text
      (λ _. "{\"permissions\": {\"ContractTrade\": []}}")
      (key_info (Json.array Items.end))
    ≡ true
unfolding api_key_permissions_allow_linear_trade lower
empty_permissions_pass = refl
