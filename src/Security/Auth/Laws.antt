-- ===== src/Security/Auth/Laws.antt =====
-- How the keys of the API are told apart.
use text.Mathlib.TextEquality.{eq_iff}
use one_year_billion.Common.{false, ◌≡◌, refl, arith, some, ◌≟◌, ≟_refl, Result}
use one_year_billion.Common.Int.{ℤ}
use one_year_billion.Config.Settings.{Settings}
use one_year_billion.Live.Gate.{http_error}
use one_year_billion.Security.Auth.{require_read, require_operator}
use one_year_billion.Security.Startup.{validate_startup_security}
use one_year_billion.Security.Startup.Laws.{validated-Pass}

-- In an application that has started, the key that only reads cannot write: a request with it is
-- answered as a reader's, and refused with status 403 where the operator's key is required.
pub readonly_key_cannot_write :
    (s : Settings) (phase : ℤ)
    → validate_startup_security s phase ≡ Result.ok tt
    → (require_read s (some s.readonly_api_key) ≡ Result.ok "reader")
      × (require_operator s (some s.readonly_api_key)
          ≡ Result.raised (http_error 403 "operator_key_required"))
unfolding require_read require_operator
readonly_key_cannot_write s phase h =
    let (keys, _, _) = validated-Pass s phase h in
    let apart : (s.readonly_api_key ≟ s.operator_api_key) ≡ false = ground (
      arith,
      keys.0,
      eq_iff s.readonly_api_key s.operator_api_key,
      eq_iff s.operator_api_key s.readonly_api_key,
    ) in
    rw (apart, ≟_refl s.readonly_api_key) (refl, refl)
