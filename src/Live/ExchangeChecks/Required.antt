-- ===== src/Live/ExchangeChecks/Required.antt =====
-- What live trading needs of the exchange's answers, said of the answers themselves, and that the
-- checks ask for just that.
use one_year_billion.Common.{
  Bool, true, false, ◌&&◌, ◌||◌, ◌⊎◌, inl, inr, ◌≡◌, refl, arith, Option, none, some, List, [], ◌∷◌,
  String, ◌≟◌, take, all, lower, has_text, not, Result, ◌>>=◌, is_ok, Bool-cases, Result-cases,
  Option-cases, if◌then◌else◌, sym, ap, ◌∙◌,
}
use one_year_billion.Common.Float.{Float, ◌<?◌, nought}
use one_year_billion.Common.Json.{
  Json, Items, Fields, truthy_json, is_text, is_null, get_json, get_or,
}
use one_year_billion.Execution.Bybit.Error.{Failure}
use one_year_billion.Execution.Bybit.Values.{attr_get, first_of, or_empty}
use one_year_billion.Live.ExchangeChecks.{
  Adapter, server_of, is_signature_error, account_mode_hint, try_accounts, try_wallet_balance,
  api_key_permissions_allow_linear_trade,
}
use one_year_billion.Live.ExchangeChecks.Specs.{
  positive_number, missing_of, extract_runtime_specs, first_instrument, examine, check_instrument,
  required_specs,
}
use one_year_billion.Live.ExchangeChecks.Laws.{
  clean, specs_clean, key_may_trade, wallet_found, wallet_known, positions_known, exchange_ready,
}

-- Chains of fallible steps in one order or the other.
>>=-assoc :
    {E A B C : Type 0} (m : Result E A) (g : A → Result E B) (h : B → Result E C)
    → ((m >>= g) >>= h) ≡ (m >>= (λ a. g a >>= h))
>>=-assoc (Result.ok a) g h = refl
>>=-assoc (Result.raised e) g h = refl

module _ {W : Type 0} ⦃f : Float W⦄ (float_of : Json → Option W) where
  abbrev pub is_positive : Json → Bool
  is_positive v = elim (float_of v) [ none ↦ false | some x ↦ nought <? x ]

  -- A filter, or nothing in its place, has a positive number under the name.
  abbrev pub number_in : Json → String → Bool
  number_in (Json.object fs) name = is_positive (get_json name fs)
  number_in v name = not (truthy_json v) && is_positive Json.null

  -- The entry is the symbol as a linear instrument in trading, with steps, minima and leverage.
  abbrev pub tradable : String → Json → Bool
  tradable symbol (Json.object fs) =
      is_text symbol (get_json "symbol" fs)
      && is_text "linear" (get_or "category" (Json.str "linear") fs)
      && is_text "Trading" (get_json "status" fs)
      && number_in (get_json "priceFilter" fs) "tickSize"
      && number_in (get_json "lotSizeFilter" fs) "qtyStep"
      && number_in (get_json "lotSizeFilter" fs) "minOrderQty"
      && number_in (get_json "lotSizeFilter" fs) "minNotionalValue"
      && number_in (get_json "leverageFilter" fs) "maxLeverage"
  tradable symbol _ = false

  -- Reading the filter under `name` raises, or gives a value that is positive where `number_in` says.
  abbrev Reads : Json → Type 0
  Reads v =
      ((fs : Fields) × (or_empty v ≡ Json.object fs)
        × ((name : String) → number_in v name ≡ is_positive (get_json name fs)))
      ⊎ ((name : String)
          → ((e : Failure) × (attr_get name Json.null (or_empty v) ≡ Result.raised e))
            × (number_in v name ≡ false))

  plain :
      (v : Json)
      → ((name : String) → (e : Failure) × (attr_get name Json.null v ≡ Result.raised e))
      → ((name : String) → number_in v name ≡ (not (truthy_json v) && is_positive Json.null))
      → Reads v
  unfolding get_or
  plain v raises number = elim (Bool-cases (truthy_json v)) [
    | inl e ↦ inr (λ name. (rw e (raises name), number name ∙ rw e refl))
    | inr e ↦ inl (Fields.no_fields, rw e refl, λ name. number name ∙ rw e refl)
  ]

  reads : (v : Json) → Reads v
  unfolding attr_get truthy_json get_or
  reads (Json.object Fields.no_fields) = inl (Fields.no_fields, refl, λ _. refl)
  reads (Json.object (Fields.field k v fs)) = inl (Fields.field k v fs, refl, λ _. refl)
  reads Json.null = inl (Fields.no_fields, refl, λ _. refl)
  reads (Json.bool b) = plain (Json.bool b) (λ _. (_, refl)) (λ _. refl)
  reads (Json.int n) = plain (Json.int n) (λ _. (_, refl)) (λ _. refl)
  reads (Json.float r) = plain (Json.float r) (λ _. (_, refl)) (λ _. refl)
  reads (Json.str s) = plain (Json.str s) (λ _. (_, refl)) (λ _. refl)
  reads (Json.array vs) = plain (Json.array vs) (λ _. (_, refl)) (λ _. refl)

  examined : String → Json → Result Failure (Fields × List String)
  examined symbol item = do
    specs ← extract_runtime_specs float_of item
    examine float_of symbol item specs

  abbrev positive_of : Result Failure Json → Bool
  positive_of (Result.ok v) = is_positive v
  positive_of (Result.raised _) = false

  abbrev read : String → Json → Result Failure Json
  unfolding attr_get
  read name v = attr_get name Json.null (or_empty v)

  positive_of-read : (name : String) (v : Json) → positive_of (read name v) ≡ number_in v name
  unfolding read attr_get
  positive_of-read name v = elim (reads v) [
    | inl (fs, e, number) ↦ rw e (sym (number name))
    | inr fails ↦
        let ((e, raised), none_there) = fails name in ap positive_of raised ∙ sym none_there
  ]

  -- the specification that is extracted from the values of its filters
  extracted :
      Json
      → Json
      → Json
      → (tick step qty notional lev : Result Failure Json) → Result Failure (Fields × List String)
  extracted symbol category status tick step qty notional lev = do
    tick_size ← tick
    qty_step ← step
    min_qty ← qty
    min_notional ← notional
    max_leverage ← lev
    let fields = Fields.field "symbol" symbol (
        Fields.field "category" category (
          Fields.field "status" status (
            Fields.field "tick_size" tick_size (
              Fields.field "qty_step" qty_step (
                Fields.field "min_qty" min_qty (
                  Fields.field "min_notional" min_notional
                    (Fields.field "max_leverage" max_leverage Fields.no_fields)))))))
    Result.ok (fields, missing_of float_of fields (required_specs float_of))

  clean-extracted :
      (symbol : String) (fs : Fields) (named category status : Json)
      (tick step qty notional lev : Result Failure Json)
      → clean (do
        specs ← extracted named category status tick step qty notional lev
        examine float_of symbol (Json.object fs) specs)
        ≡ (is_text symbol (get_json "symbol" fs)
            && is_text "linear" (get_or "category" (Json.str "linear") fs)
            && is_text "Trading" (get_json "status" fs)
            && positive_of tick
            && positive_of step
            && positive_of qty
            && positive_of notional
            && positive_of lev)
  unfolding extracted examine attr_get missing_of positive_number get_or
  clean-extracted symbol fs named category status (Result.ok a) (Result.ok b) (Result.ok c)
        (Result.ok d) (Result.ok e) =
      ground arith
  clean-extracted symbol fs named category status (Result.raised _) b c d e = ground arith
  clean-extracted symbol fs named category status (Result.ok _) (Result.raised _) c d e =
      ground arith
  clean-extracted symbol fs named category status (Result.ok _) (Result.ok _) (Result.raised _) d
        e =
      ground arith
  clean-extracted symbol fs named category status (Result.ok _) (Result.ok _) (Result.ok _)
        (Result.raised _) e =
      ground arith
  clean-extracted symbol fs named category status (Result.ok _) (Result.ok _) (Result.ok _)
        (Result.ok _) (Result.raised _) =
      ground arith

  clean-examined :
      (symbol : String) (item : Json) → clean (examined symbol item) ≡ tradable symbol item
  unfolding examined extracted extract_runtime_specs examine attr_get
  clean-examined symbol (Json.object fs) =
      rw⁻¹
        (
          positive_of-read "tickSize" (get_json "priceFilter" fs),
          positive_of-read "qtyStep" (get_json "lotSizeFilter" fs),
          positive_of-read "minOrderQty" (get_json "lotSizeFilter" fs),
          positive_of-read "minNotionalValue" (get_json "lotSizeFilter" fs),
          positive_of-read "maxLeverage" (get_json "leverageFilter" fs),
        )
        (clean-extracted symbol fs (get_json "symbol" fs) (get_or "category" (Json.str "linear") fs)
          (get_json "status" fs) (read "tickSize" (get_json "priceFilter" fs))
          (read "qtyStep" (get_json "lotSizeFilter" fs))
          (read "minOrderQty" (get_json "lotSizeFilter" fs))
          (read "minNotionalValue" (get_json "lotSizeFilter" fs))
          (read "maxLeverage" (get_json "leverageFilter" fs)))
  clean-examined symbol Json.null = refl
  clean-examined symbol (Json.bool _) = refl
  clean-examined symbol (Json.int _) = refl
  clean-examined symbol (Json.float _) = refl
  clean-examined symbol (Json.str _) = refl
  clean-examined symbol (Json.array _) = refl

  -- The reply lists the symbol first, as a tradable instrument.
  abbrev pub first_tradable : String → Json → Bool
  first_tradable symbol (Json.array (Items.item v _)) = tradable symbol v
  first_tradable symbol _ = false

  abbrev pub listed : String → Json → Bool
  listed symbol (Json.object fs) = first_tradable symbol (get_json "list" fs)
  listed symbol _ = false

  abbrev pub instrument_ready : String → Result Failure Fields → Bool
  instrument_ready symbol (Result.ok reply) = listed symbol (get_json "result" reply)
  instrument_ready symbol (Result.raised _) = false

  abbrev lists_nothing : Json
  lists_nothing = Json.array (Items.item (Json.object Fields.no_fields) Items.end)

  first_tradable-default :
      (symbol : String) (fs : Fields)
      → first_tradable symbol (get_or "list" lists_nothing fs)
        ≡ first_tradable symbol (get_json "list" fs)
  unfolding get_or
  first_tradable-default symbol Fields.no_fields = refl
  first_tradable-default symbol (Fields.field k v fs) = elim (Bool-cases (k ≟ "list")) [
    | inl e ↦ rw e refl
    | inr e ↦ rw e (first_tradable-default symbol fs)
  ]

  clean-first :
      (symbol : String) (v : Json)
      → clean (do item ← first_of v; examined symbol item) ≡ first_tradable symbol v
  unfolding first_of
  clean-first symbol (Json.array (Items.item v _)) = clean-examined symbol v
  clean-first symbol (Json.array Items.end) = refl
  clean-first symbol (Json.str t) = elim (Bool-cases (t ≟ "")) [
    | inl e ↦ rw e refl
    | inr e ↦ rw e (clean-examined symbol (Json.str (take 1 t)))
  ]
  clean-first symbol (Json.object _) = refl
  clean-first symbol Json.null = refl
  clean-first symbol (Json.bool _) = refl
  clean-first symbol (Json.int _) = refl
  clean-first symbol (Json.float _) = refl

  clean-listed :
      (symbol : String) (v : Json)
      → clean (do
        instruments ← attr_get "list" lists_nothing (or_empty v)
        item ← first_of instruments
        examined symbol item)
        ≡ listed symbol v
  unfolding attr_get truthy_json get_or
  clean-listed symbol (Json.object Fields.no_fields) = clean-first symbol lists_nothing
  clean-listed symbol (Json.object (Fields.field k v fs)) =
      clean-first symbol (get_or "list" lists_nothing (Fields.field k v fs))
      ∙ first_tradable-default symbol (Fields.field k v fs)
  clean-listed symbol Json.null = clean-first symbol lists_nothing
  clean-listed symbol (Json.bool true) = refl
  clean-listed symbol (Json.bool false) = clean-first symbol lists_nothing
  clean-listed symbol (Json.int n) = elim (Bool-cases (truthy_json (Json.int n))) [
    | inl e ↦ rw e refl
    | inr e ↦ rw e (clean-first symbol lists_nothing)
  ]
  clean-listed symbol (Json.float r) = elim (Bool-cases (truthy_json (Json.float r))) [
    | inl e ↦ rw e refl
    | inr e ↦ rw e (clean-first symbol lists_nothing)
  ]
  clean-listed symbol (Json.str t) = elim (Bool-cases (truthy_json (Json.str t))) [
    | inl e ↦ rw e refl
    | inr e ↦ rw e (clean-first symbol lists_nothing)
  ]
  clean-listed symbol (Json.array Items.end) = clean-first symbol lists_nothing
  clean-listed symbol (Json.array (Items.item _ _)) = refl

  clean-reply :
      (symbol : String) (m : Result Failure Fields)
      → clean (do
        reply ← m
        item ← first_instrument float_of reply
        specs ← extract_runtime_specs float_of item
        examine float_of symbol item specs)
        ≡ instrument_ready symbol m
  unfolding first_instrument examined
  clean-reply symbol (Result.ok reply) =
      ap clean (
        >>=-assoc (attr_get "list" lists_nothing (or_empty (get_json "result" reply))) first_of
          (examined symbol))
      ∙ clean-listed symbol (get_json "result" reply)
  clean-reply symbol (Result.raised _) = refl

  specs_clean-all :
      (info : String → Result Failure Fields) (universe : List String)
      → specs_clean float_of info universe
        ≡ all (λ symbol. instrument_ready symbol (info symbol)) universe
  unfolding check_instrument
  specs_clean-all info [] = refl
  specs_clean-all info (symbol ∷ universe) =
      rw (clean-reply symbol (info symbol), specs_clean-all info universe) refl

module _ (str_of : Json → String) where
  -- An account names its mode, or the reply has no result.
  abbrev pub first_object : Json → Bool
  first_object (Json.array (Items.item (Json.object _) _)) = true
  first_object _ = false

  abbrev pub lists_account : Json → Bool
  lists_account (Json.object fs) =
      first_object
        (get_or "list" (Json.array (Items.item (Json.object Fields.no_fields) Items.end)) fs)
  lists_account _ = false

  abbrev pub account_ready : Result Failure Fields → Bool
  account_ready (Result.ok account) =
      not (truthy_json (get_json "result" account)) || lists_account (get_json "result" account)
  account_ready (Result.raised _) = false

  -- The account of the type answers; if the call fails for its argument, the call without one does,
  -- and if it fails otherwise, what comes `next`.
  abbrev pub answers : Adapter → Bool → Result Failure Fields → Bool
  answers adapter next (Result.ok account) = account_ready (Result.ok account)
  answers adapter next (Result.raised e) =
      if is_signature_error str_of e then account_ready (adapter.get_wallet_balance none) else next

  abbrev pub wallet_ready : Adapter → Bool
  wallet_ready adapter =
      answers adapter (answers adapter false (adapter.get_wallet_balance (some "CONTRACT")))
        (adapter.get_wallet_balance (some "UNIFIED"))

  found-first :
      (v : Json)
      → is_ok (do first ← first_of v; attr_get "accountType" Json.null first) ≡ first_object v
  unfolding first_of attr_get
  found-first (Json.array (Items.item (Json.object _) _)) = refl
  found-first (Json.array (Items.item Json.null _)) = refl
  found-first (Json.array (Items.item (Json.bool _) _)) = refl
  found-first (Json.array (Items.item (Json.int _) _)) = refl
  found-first (Json.array (Items.item (Json.float _) _)) = refl
  found-first (Json.array (Items.item (Json.str _) _)) = refl
  found-first (Json.array (Items.item (Json.array _) _)) = refl
  found-first (Json.array Items.end) = refl
  found-first (Json.str t) = elim (Bool-cases (t ≟ "")) [ inl e ↦ rw e refl | inr e ↦ rw e refl ]
  found-first (Json.object _) = refl
  found-first Json.null = refl
  found-first (Json.bool _) = refl
  found-first (Json.int _) = refl
  found-first (Json.float _) = refl

  found-listed :
      (v : Json)
      → is_ok (do
        accounts ←
            attr_get "list" (Json.array (Items.item (Json.object Fields.no_fields) Items.end)) v
        first ← first_of accounts
        attr_get "accountType" Json.null first)
        ≡ lists_account v
  unfolding attr_get
  found-listed (Json.object fs) =
      found-first
        (get_or "list" (Json.array (Items.item (Json.object Fields.no_fields) Items.end)) fs)
  found-listed Json.null = refl
  found-listed (Json.bool _) = refl
  found-listed (Json.int _) = refl
  found-listed (Json.float _) = refl
  found-listed (Json.str _) = refl
  found-listed (Json.array _) = refl

  found-hint :
      (account : Fields) (account_type : String)
      → is_ok (account_mode_hint str_of account account_type) ≡ account_ready (Result.ok account)
  unfolding account_mode_hint
  found-hint account account_type = elim (Bool-cases (truthy_json (get_json "result" account))) [
    | inl e ↦ rw e (found-listed (get_json "result" account))
    | inr e ↦ rw e refl
  ]

  found-answers :
      (adapter : Adapter) (t : String) (ts : List String) (first : Option Failure) (next : Bool)
      → ((e : Failure) → wallet_found str_of (try_accounts str_of adapter ts (some e)) ≡ next)
      → wallet_found str_of (try_accounts str_of adapter (t ∷ ts) first)
        ≡ answers adapter next (adapter.get_wallet_balance (some t))
  unfolding try_accounts
  found-answers adapter t ts first next h =
      elim (Result-cases (adapter.get_wallet_balance (some t))) [
        | inl (account, e) ↦ rw (try_accounts, e) (found-hint account t)
        | inr (e, failed) ↦ elim (Bool-cases (is_signature_error str_of e)) [
          | inr other ↦ rw (try_accounts, failed, other) (h _)
          | inl signature ↦ elim (Result-cases (adapter.get_wallet_balance none)) [
            | inl (account, plain_call) ↦
                rw (try_accounts, failed, signature, plain_call) (found-hint account "UNIFIED")
            | inr (e', raised) ↦ rw (try_accounts, failed, signature, raised) refl
          ]
        ]
      ]

  wallet_known-ready : (adapter : Adapter) → wallet_known str_of adapter ≡ wallet_ready adapter
  unfolding try_wallet_balance
  wallet_known-ready adapter =
      found-answers adapter "UNIFIED" ("CONTRACT" ∷ []) none
        (answers adapter false (adapter.get_wallet_balance (some "CONTRACT")))
        (λ e. found-answers adapter "CONTRACT" [] (some e) false (λ _. refl))

  -- The answer on the key names a scope of contracts and one of trading.
  abbrev pub key_ready : (Json → String) → Result Failure Fields → Bool
  key_ready dumps (Result.raised _) = false
  key_ready dumps (Result.ok info) =
      let result = get_json "result" info in
      let text = lower (dumps (if truthy_json result then result else Json.object info)) in
      (has_text text "contracttrade"
        || has_text text "contract_trade"
        || has_text text "derivatives"
        || has_text text "linear")
      && (has_text text "trade" || has_text text "order" || has_text text "write")

  key_known-ready :
      (dumps : Json → String) (adapter : Adapter)
      → key_may_trade str_of dumps adapter ≡ key_ready dumps adapter.get_api_key_info
  unfolding api_key_permissions_allow_linear_trade
  key_known-ready dumps adapter = elim (Result-cases adapter.get_api_key_info) [
    | inl (info, e) ↦ rw e (ground arith)
    | inr (e, raised) ↦ rw raised refl
  ]

  abbrev pub server_ready : Adapter → Bool
  server_ready adapter = elim adapter.sync_time [
    | none ↦ is_ok adapter.get_server_time
    | some synchronised ↦ is_ok synchronised
  ]

  server_known-ready : (adapter : Adapter) → is_ok (server_of adapter) ≡ server_ready adapter
  server_known-ready adapter = elim (Option-cases adapter.sync_time) [
    | inl e ↦ rw e refl
    | inr (m, e) ↦ rw e refl
  ]

  abbrev pub positions_ready : Result Failure Fields → Bool
  positions_ready (Result.ok positions) = not (is_null (get_json "result" positions))
  positions_ready (Result.raised _) = false

  positions_known-ready :
      (adapter : Adapter) → positions_known str_of adapter ≡ positions_ready adapter.get_positions
  positions_known-ready adapter = elim (Result-cases adapter.get_positions) [
    | inl (positions, e) ↦ rw e refl
    | inr (e, raised) ↦ rw raised refl
  ]

  module _ {W : Type 0} ⦃f : Float W⦄ (float_of : Json → Option W) (dumps : Json → String) where
    -- The exchange's server answers, every symbol is tradable, the key may trade, and the wallet
    -- and the positions are known.
    abbrev pub exchange_required : Adapter → List String → Bool
    exchange_required adapter universe =
        server_ready adapter
        && all
            (λ symbol. instrument_ready float_of symbol (adapter.runtime_instruments_info symbol))
            universe
        && key_ready dumps adapter.get_api_key_info
        && wallet_ready adapter
        && positions_ready adapter.get_positions

    -- The checks ask for just what is required.
    pub exchange_ready-required :
        (adapter : Adapter) (universe : List String)
        → exchange_ready float_of str_of dumps adapter universe ≡ exchange_required adapter universe
    exchange_ready-required adapter universe =
        rw
          (
            server_known-ready adapter,
            specs_clean-all float_of adapter.runtime_instruments_info universe,
            key_known-ready dumps adapter,
            wallet_known-ready adapter,
            positions_known-ready adapter,
          )
          refl
