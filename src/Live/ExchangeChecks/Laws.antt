-- ===== src/Live/ExchangeChecks/Laws.antt =====
-- What it means that the checks of the exchange add no reason.
use one_year_billion.Common.{
  Bool, true, false, not, ◌&&◌, ◌≡◌, inl, inr, refl, Option, none, some, List, [], ◌∷◌, String,
  is_empty, is_empty-snoc, is_empty-both, Result, Result-cases, is_ok, all, arith, ap,
}
use one_year_billion.Common.Float.{Float}
use one_year_billion.Common.Json.{Json, Fields, is_null, get_json}
use one_year_billion.Execution.Bybit.Error.{Failure}
use one_year_billion.Live.Report.{Report, add_reason, add_reason_if}
use one_year_billion.Live.ExchangeChecks.{
  Adapter, record_status, status_after_sync, server_of, record_server, public_check,
  private_failure, private_check, account_mode_hint, try_wallet_balance, record_hint, record_wallet,
  wallet_check, positions_check, private_summary, record_errors, specs_check,
  run_bybit_runtime_checks, api_key_permissions_allow_linear_trade,
}
use one_year_billion.Live.ExchangeChecks.Specs.{add_found, check_instrument, check_specs}

-- No reason has been added yet.
abbrev pub quiet : Report → Bool
quiet r = is_empty r.reasons

quiet-add_reason : (reason : String) (r : Report) → quiet (add_reason reason r) ≡ false
quiet-add_reason reason r = is_empty-snoc r.reasons reason

pub quiet-add_reason_if :
    (b : Bool) (reason : String) (r : Report)
    → quiet (add_reason_if b reason r) ≡ (not b && quiet r)
quiet-add_reason_if true reason r = quiet-add_reason reason r
quiet-add_reason_if false reason r = refl

reasons-record_status : (o : Option Fields) (r : Report) → (record_status o r).reasons ≡ r.reasons
reasons-record_status none r = refl
reasons-record_status (some _) r = refl

quiet-record_server :
    (status : Option Fields) (m : Result Failure Fields) (r : Report)
    → quiet (record_server status m r) ≡ (is_ok m && quiet r)
unfolding record_server
quiet-record_server status (Result.ok server) r = ap is_empty (reasons-record_status status r)
quiet-record_server status (Result.raised e) r = is_empty-snoc r.reasons _

quiet-public_check :
    (adapter : Adapter) (r : Report)
    → quiet (public_check adapter r) ≡ (is_ok (server_of adapter) && quiet r)
unfolding public_check
quiet-public_check adapter r = quiet-record_server (status_after_sync adapter) (server_of adapter) r

quiet-private_summary : (r : Report) → quiet (private_summary r) ≡ quiet r
unfolding private_summary
quiet-private_summary r = refl

module _ (str_of : Json → String) where
  quiet-private_failure :
      (check place prefix : String) (e : Failure) (r : Report)
      → quiet (private_failure str_of check place prefix e r) ≡ false
  unfolding private_failure
  quiet-private_failure check place prefix e r = is_empty-snoc r.reasons _

  -- the key is known and may trade
  abbrev pub key_may_trade : (Json → String) → Adapter → Bool
  key_may_trade dumps adapter = elim adapter.get_api_key_info [
    | Result.ok key_info ↦ api_key_permissions_allow_linear_trade str_of dumps key_info
    | Result.raised _ ↦ false
  ]

  quiet-private_check :
      (dumps : Json → String) (adapter : Adapter) (r : Report)
      → quiet (private_check str_of dumps adapter r) ≡ (key_may_trade dumps adapter && quiet r)
  unfolding private_check
  quiet-private_check dumps adapter r = elim (Result-cases adapter.get_api_key_info) [
    | inl (key_info, e) ↦ rw e (grind (arith, quiet-add_reason_if))
    | inr (e, h) ↦ rw h (
        quiet-private_failure "bybit_private_api_verified" "query_api_key"
          "bybit_private_api_auth_failed" e r)
  ]

  -- the balance of the wallet is known, with the account's mode
  abbrev pub wallet_found : Result Failure (Fields × String) → Bool
  wallet_found (Result.ok (account, account_type)) =
      is_ok (account_mode_hint str_of account account_type)
  wallet_found (Result.raised _) = false

  abbrev pub wallet_known : Adapter → Bool
  wallet_known adapter = wallet_found (try_wallet_balance str_of adapter)

  quiet-record_hint :
      (m : Result Failure Json) (r : Report) → quiet (record_hint str_of m r) ≡ (is_ok m && quiet r)
  unfolding record_hint private_failure
  quiet-record_hint (Result.ok hint) r = refl
  quiet-record_hint (Result.raised e) r = is_empty-snoc r.reasons _

  quiet-record_wallet :
      (m : Result Failure (Fields × String)) (r : Report)
      → quiet (record_wallet str_of m r) ≡ (wallet_found m && quiet r)
  unfolding record_wallet private_failure
  quiet-record_wallet (Result.ok (account, account_type)) r =
      quiet-record_hint (account_mode_hint str_of account account_type) _
  quiet-record_wallet (Result.raised e) r = is_empty-snoc r.reasons _

  abbrev pub positions_known : Adapter → Bool
  positions_known adapter = elim adapter.get_positions [
    | Result.ok positions ↦ not (is_null (get_json "result" positions))
    | Result.raised _ ↦ false
  ]

  quiet-positions_check :
      (adapter : Adapter) (r : Report)
      → quiet (positions_check str_of adapter r) ≡ (positions_known adapter && quiet r)
  unfolding positions_check
  quiet-positions_check adapter r = elim (Result-cases adapter.get_positions) [
    | inl (positions, e) ↦ rw e (grind (arith, quiet-add_reason_if))
    | inr (e, h) ↦ rw h (is_empty-snoc r.reasons _)
  ]

  quiet-wallet_check :
      (adapter : Adapter) (r : Report)
      → quiet (wallet_check str_of adapter r) ≡ (wallet_known adapter && quiet r)
  unfolding wallet_check
  quiet-wallet_check adapter r = quiet-record_wallet (try_wallet_balance str_of adapter) r

  quiet-record_errors : (r : Report) → quiet (record_errors str_of r) ≡ quiet r
  unfolding record_errors
  quiet-record_errors r = ground arith

-- The reply on the instrument has no reason against it.
abbrev pub clean : Result Failure (Fields × List String) → Bool
clean (Result.ok (_, more)) = is_empty more
clean (Result.raised _) = false

is_empty-add_found :
    (symbol : String) (m : Result Failure (Fields × List String)) (found : Fields × List String)
    → is_empty (add_found symbol m found).1 ≡ (clean m && is_empty found.1)
unfolding add_found
is_empty-add_found symbol (Result.ok (extracted, more)) (specs, reasons) =
    ground (arith, is_empty-both reasons more)
is_empty-add_found symbol (Result.raised e) (specs, reasons) = is_empty-snoc reasons _

module _ {W : Type 0} ⦃f : Float W⦄ (float_of : Json → Option W) where
  abbrev pub specs_clean : (String → Result Failure Fields) → List String → Bool
  specs_clean info universe = all (λ symbol. clean (check_instrument float_of info symbol)) universe

  pub is_empty-check_specs :
      (info : String → Result Failure Fields) (universe : List String)
      (found : Fields × List String)
      → is_empty (check_specs float_of info universe found).1
        ≡ (specs_clean info universe && is_empty found.1)
  unfolding check_specs
  is_empty-check_specs info [] found = refl
  is_empty-check_specs info (symbol ∷ universe) found = ground (
    arith,
    is_empty-check_specs info universe
        (add_found symbol (check_instrument float_of info symbol) found),
    is_empty-add_found symbol (check_instrument float_of info symbol) found,
  )

  module _ (str_of : Json → String) (dumps : Json → String) where
    -- All that the checks of the exchange ask for.
    abbrev pub exchange_ready : Adapter → List String → Bool
    exchange_ready adapter universe =
        is_ok (server_of adapter)
        && specs_clean adapter.runtime_instruments_info universe
        && key_may_trade str_of dumps adapter
        && wallet_known str_of adapter
        && positions_known str_of adapter

    quiet-specs_check :
        (adapter : Adapter) (universe : List String) (r : Report)
        → quiet (specs_check str_of float_of dumps adapter universe r)
          ≡ (specs_clean adapter.runtime_instruments_info universe && quiet r)
    unfolding specs_check
    quiet-specs_check adapter universe r = ground (
      arith,
      is_empty-check_specs adapter.runtime_instruments_info universe (Fields.no_fields, []),
      is_empty-both r.reasons
          (check_specs float_of adapter.runtime_instruments_info universe (Fields.no_fields, [])).1,
    )

    -- The checks of the exchange add no reason just where the server, the instruments, the key, the
    -- wallet and the positions are in order.
    pub quiet-run_bybit_runtime_checks :
        (adapter : Adapter) (universe : List String) (r : Report)
        → quiet (run_bybit_runtime_checks str_of float_of dumps adapter universe r)
          ≡ (exchange_ready adapter universe && quiet r)
    unfolding run_bybit_runtime_checks
    quiet-run_bybit_runtime_checks adapter universe r =
        let r0 = record r { private_errors = [] } in
        let r1 = public_check adapter r0 in
        let r2 = specs_check str_of float_of dumps adapter universe r1 in
        let r3 = private_check str_of dumps adapter r2 in
        let r4 = wallet_check str_of adapter r3 in
        let r5 = private_summary (positions_check str_of adapter r4) in
        let r6 = record_status adapter.final_time_sync_status r5 in
        let e6 : quiet r6 ≡ quiet r5 =
          ap is_empty (reasons-record_status adapter.final_time_sync_status r5) in
        let e1 : quiet r1 ≡ (is_ok (server_of adapter) && quiet r) =
          quiet-public_check adapter r0 in
        rw
          (
            quiet-record_errors str_of r6,
            e6,
            quiet-private_summary (positions_check str_of adapter r4),
            quiet-positions_check str_of adapter r4,
            quiet-wallet_check str_of adapter r3,
            quiet-private_check str_of dumps adapter r2,
            quiet-specs_check adapter universe r1,
            e1,
          )
          (ground arith)
