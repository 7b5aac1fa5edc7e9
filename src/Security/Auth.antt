-- ===== src/Security/Auth.antt =====
-- app/security/auth.py: who may read and who may write.
pub mod Laws
use one_year_billion.Common.{
  Bool, true, false, ◌||◌, Option, none, some, [], ◌∷◌, String, ◌≟◌, is_in, Result, if◌then◌else◌,
}
use one_year_billion.Config.Settings.{Settings}
use one_year_billion.Live.Gate.{HttpError, http_error}

-- `x_api_key == key`, where the header may be absent
abbrev pub is_key : String → Option String → Bool
is_key key none = false
is_key key (some x) = x ≟ key

unfoldable pub require_read : Settings → Option String → Result HttpError String
require_read settings x_api_key =
    if is_key settings.operator_api_key x_api_key || is_key settings.readonly_api_key x_api_key
    then Result.ok (if is_key settings.readonly_api_key x_api_key then "reader" else "operator")
    else (if settings.app_env ≟ "local"
        then Result.ok "local_reader"
        else Result.raised (http_error 401 "invalid_api_key"))

unfoldable pub require_operator : Settings → Option String → Result HttpError String
require_operator settings x_api_key =
    if is_key settings.operator_api_key x_api_key
    then Result.ok "operator"
    else Result.raised (http_error 403 "operator_key_required")
