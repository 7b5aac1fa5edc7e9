-- ===== src/Security/Redaction.antt =====
-- app/security/redaction.py: the values of secret keys do not reach a log or an answer.
pub mod Laws
use one_year_billion.Common.{Bool, List, [], ◌∷◌, String, is_in, lower, if◌then◌else◌}
use one_year_billion.Common.Json.{Json, Items, Fields}

-- `SECRET_KEYS`
abbrev pub secret_keys : List String
secret_keys =
    "api_key" ∷ "apisecret" ∷ "api_secret" ∷ "secret" ∷ "token" ∷ "password" ∷ "authorization"
    ∷ "x-bapi-api-key" ∷ "x-bapi-sign" ∷ "x-api-key" ∷ "bybit_api_key" ∷ "bybit_api_secret" ∷ []

-- `k.lower() in SECRET_KEYS`
unfoldable pub is_secret : String → Bool
is_secret k = is_in (lower k) secret_keys

abbrev pub redacted : Json
redacted = Json.str "***REDACTED***"

unfoldable mutual
  unfolding is_secret

  pub redact : Json → Json
  redact (Json.object fs) = Json.object (redact_fields fs)
  redact (Json.array xs) = Json.array (redact_items xs)
  redact v = v

  pub redact_items : Items → Items
  redact_items Items.end = Items.end
  redact_items (Items.item x xs) = Items.item (redact x) (redact_items xs)

  pub redact_fields : Fields → Fields
  redact_fields Fields.no_fields = Fields.no_fields
  redact_fields (Fields.field k v fs) =
      let kept = redact v in
      Fields.field k (if is_secret k then redacted else kept) (redact_fields fs)
