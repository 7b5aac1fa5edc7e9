-- ===== src/Live/ExchangeChecks/Recorded.antt =====
-- What the checks of the exchange record when nothing is against them.
use one_year_billion.Common.{
  Bool, true, ◌≡◌, refl, ap, ◌∙◌, arith, Option, none, some, inl, inr, List, String, [], Dict, put,
  Result, Result-cases, is_ok,
}
use one_year_billion.Common.Float.{Float}
use one_year_billion.Common.Json.{Json, Fields}
use one_year_billion.Execution.Bybit.Error.{Failure}
use one_year_billion.Live.Report.{Report, check_of, all_hold}
use one_year_billion.Live.Report.Laws.{all_hold-put, is_set-put, is_set-put_same}
use one_year_billion.Live.ExchangeChecks.{
  Adapter, record_status, server_of, status_after_sync, record_server, public_check, private_check,
  record_hint, record_wallet, wallet_check, positions_check, private_summary, record_errors,
  specs_check, run_bybit_runtime_checks, account_mode_hint, try_wallet_balance,
  api_key_permissions_allow_linear_trade,
}
use one_year_billion.Live.ExchangeChecks.Laws.{
  wallet_found, positions_known, key_may_trade, specs_clean, exchange_ready, is_empty-check_specs,
}

checks-record_status : (o : Option Fields) (r : Report) → (record_status o r).checks ≡ r.checks
checks-record_status none r = refl
checks-record_status (some _) r = refl

checks-record_server :
    (status : Option Fields) (m : Result Failure Fields) (r : Report)
    → is_ok m ≡ true
    → (record_server status m r).checks ≡ put "bybit_public_api_reachable" true r.checks
unfolding record_server
checks-record_server status (Result.ok server) r h =
    ap (put "bybit_public_api_reachable" true) (checks-record_status status r)
checks-record_server status (Result.raised e) r h = cc

module _ (str_of : Json → String) where
  checks-private_check :
      (dumps : Json → String) (adapter : Adapter) (r : Report)
      → key_may_trade str_of dumps adapter ≡ true
      → (private_check str_of dumps adapter r).checks
        ≡ put "bybit_api_key_trade_permission_verified" true
            (put "bybit_private_api_verified" true r.checks)
  unfolding private_check
  checks-private_check dumps adapter r h = elim (Result-cases adapter.get_api_key_info) [
    | inl (key_info, e) ↦
        let allowed : api_key_permissions_allow_linear_trade str_of dumps key_info ≡ true =
          ground (arith, e) in
        rw (e, allowed) refl
    | inr (e, k) ↦ ground arith
  ]

  checks-record_hint :
      (m : Result Failure Json) (r : Report)
      → is_ok m ≡ true
      → (record_hint str_of m r).checks ≡ put "bybit_wallet_balance_verified" true r.checks
  unfolding record_hint
  checks-record_hint (Result.ok hint) r h = refl
  checks-record_hint (Result.raised e) r h = cc

  checks-record_wallet :
      (m : Result Failure (Fields × String)) (r : Report)
      → wallet_found str_of m ≡ true
      → (record_wallet str_of m r).checks ≡ put "bybit_wallet_balance_verified" true r.checks
  unfolding record_wallet
  checks-record_wallet (Result.ok (account, account_type)) r h =
      checks-record_hint (account_mode_hint str_of account account_type) _ h
  checks-record_wallet (Result.raised e) r h = cc

  checks-positions_check :
      (adapter : Adapter) (r : Report)
      → positions_known str_of adapter ≡ true
      → (positions_check str_of adapter r).checks ≡ put "bybit_positions_verified" true r.checks
  unfolding positions_check
  checks-positions_check adapter r h = elim (Result-cases adapter.get_positions) [
    | inl (positions, e) ↦ rw e (ground arith)
    | inr (e, k) ↦ ground arith
  ]

  checks-record_errors : (r : Report) → (record_errors str_of r).checks ≡ r.checks
  unfolding record_errors
  checks-record_errors r = ground arith

-- The summary holds when the four checks that it sums up were the last to be written.
summary-holds :
    (d : Dict Bool) (r : Report)
    → r.checks
      ≡ put "bybit_positions_verified" true (
          put "bybit_wallet_balance_verified" true (
            put "bybit_api_key_trade_permission_verified" true
              (put "bybit_private_api_verified" true d)))
    → (private_summary r).checks ≡ put "bybit_private_api_and_permissions_verified" true r.checks
unfolding private_summary
summary-holds d r h =
    let api : String = "bybit_private_api_verified" in
    let key : String = "bybit_api_key_trade_permission_verified" in
    let wallet : String = "bybit_wallet_balance_verified" in
    let positions : String = "bybit_positions_verified" in
    let d1 = put api true d in
    let d2 = put key true d1 in
    let d3 = put wallet true d2 in
    let s1 : check_of api r ≡ true = rw h (
      is_set-put positions api d3
        (is_set-put wallet api d2 (is_set-put key api d1 (is_set-put_same api d)))) in
    let s2 : check_of key r ≡ true =
      rw h (is_set-put positions key d3 (is_set-put wallet key d2 (is_set-put_same key d1))) in
    let s3 : check_of wallet r ≡ true =
      rw h (is_set-put positions wallet d3 (is_set-put_same wallet d2)) in
    let s4 : check_of positions r ≡ true = rw h (is_set-put_same positions d3) in
    rw (s1, s2, s3, s4) refl

module _ (str_of : Json → String) {W : Type 0} ⦃f : Float W⦄ (float_of : Json → Option W)
    (dumps : Json → String) where
  checks-specs_check :
      (adapter : Adapter) (universe : List String) (r : Report)
      → specs_clean float_of adapter.runtime_instruments_info universe ≡ true
      → (specs_check str_of float_of dumps adapter universe r).checks
        ≡ put "runtime_instrument_specs_verified" true r.checks
  unfolding specs_check
  checks-specs_check adapter universe r h =
      rw
        (
          is_empty-check_specs float_of adapter.runtime_instruments_info universe
              (Fields.no_fields, []),
          h,
        )
        refl

  -- Where the exchange is ready, the checks of the exchange keep it that all checks hold.
  pub all_hold-run_bybit_runtime_checks :
      (adapter : Adapter) (universe : List String) (r : Report)
      → exchange_ready float_of str_of dumps adapter universe ≡ true
      → all_hold r.checks ≡ true
      → all_hold (run_bybit_runtime_checks str_of float_of dumps adapter universe r).checks ≡ true
  unfolding run_bybit_runtime_checks public_check wallet_check
  all_hold-run_bybit_runtime_checks adapter universe r ready h =
      let r0 = record r { private_errors = [] } in
      let r1 = public_check adapter r0 in
      let r2 = specs_check str_of float_of dumps adapter universe r1 in
      let r3 = private_check str_of dumps adapter r2 in
      let r4 = wallet_check str_of adapter r3 in
      let r5 = positions_check str_of adapter r4 in
      let r6 = record_status adapter.final_time_sync_status (private_summary r5) in
      let c1 : r1.checks ≡ put "bybit_public_api_reachable" true r.checks =
        checks-record_server (status_after_sync adapter) (server_of adapter) r0 (ground arith) in
      let c2 = checks-specs_check adapter universe r1 (ground arith) in
      let c3 = checks-private_check str_of dumps adapter r2 (ground arith) in
      let c4 : r4.checks ≡ put "bybit_wallet_balance_verified" true r3.checks =
        checks-record_wallet str_of (try_wallet_balance str_of adapter) r3 (ground arith) in
      let c5 = checks-positions_check str_of adapter r4 (ground arith) in
      let summary = summary-holds r2.checks r5 (
        c5
        ∙ ap (put "bybit_positions_verified" true)
            (c4 ∙ ap (put "bybit_wallet_balance_verified" true) c3)) in
      let a2 =
        all_hold-put "runtime_instrument_specs_verified" _
          (all_hold-put "bybit_public_api_reachable" r.checks h) in
      let a5 = all_hold-put "bybit_positions_verified" _ (
        all_hold-put "bybit_wallet_balance_verified" _ (
          all_hold-put "bybit_api_key_trade_permission_verified" _
            (all_hold-put "bybit_private_api_verified" _ a2))) in
      let a6 = all_hold-put "bybit_private_api_and_permissions_verified" _ a5 in
      rw
        (
          checks-record_errors str_of r6,
          checks-record_status adapter.final_time_sync_status (private_summary r5),
          summary,
          c5,
          c4,
          c3,
          c2,
          c1,
        )
        a6
