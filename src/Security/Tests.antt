-- ===== src/Security/Tests.antt =====
-- Redaction, keys and the start of the application on concrete values.
use one_year_billion.Common.{◌≡◌, refl, true, some, Result, lower, size}
use one_year_billion.Common.Int.{pos}
use one_year_billion.Common.Json.{Json, Fields}
use one_year_billion.Config.Samples.{settings_1}
use one_year_billion.Live.Gate.{http_error}
use one_year_billion.Live.Preflight.Ready.{live_settings}
use one_year_billion.Security.Redaction.{redact}
use one_year_billion.Security.Redaction.Laws.{replace_secrets, redact_hides}
use one_year_billion.Security.Startup.{validate_startup_security}
use one_year_billion.Security.Startup.Laws.{started-live_settings}
use one_year_billion.Security.Auth.{require_read, require_operator}
use one_year_billion.Security.Auth.Laws.{readonly_key_cannot_write}

abbrev message : Json
message = Json.object (
    Fields.field "symbol" (Json.str "BTCUSDT")
      (Fields.field "Api_Key" (Json.str "k") Fields.no_fields))

message_redacted :
    redact message
    ≡ Json.object (
        Fields.field "symbol"
          (Json.str "BTCUSDT")
          (Fields.field "Api_Key" (Json.str "***REDACTED***") Fields.no_fields))
unfolding redact lower
message_redacted = refl

redact_hides_example : redact (replace_secrets (λ _ _. Json.null) message) ≡ redact message
redact_hides_example = redact_hides (λ _ _. Json.null) message

started-live_settings_example : live_settings settings_1 true ≡ true
unfolding validate_startup_security size
started-live_settings_example = started-live_settings settings_1 (pos 0) refl refl

readonly_key_cannot_write_example :
    (require_read settings_1 (some "reader-key") ≡ Result.ok "reader")
    × (require_operator settings_1 (some "reader-key")
        ≡ Result.raised (http_error 403 "operator_key_required"))
unfolding validate_startup_security size
readonly_key_cannot_write_example = readonly_key_cannot_write settings_1 (pos 0) refl
