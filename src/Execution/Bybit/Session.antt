-- ===== src/Execution/Bybit/Session.antt =====
-- The adapter of app/execution/bybit_adapter.py with its world: its own variables, the readings of
-- the clocks and the requests that it has sent. A method is an action on the session, which leaves
-- the session behind also where it raises.
use one_year_billion.Common.{ℕ, Bool, Option, List, String, Dict, Result, if◌then◌else◌}
use one_year_billion.Common.Int.{ℤ}
use one_year_billion.Common.Json.{Json}
use one_year_billion.Execution.Bybit.Error.{Failure}
use one_year_billion.Execution.Bybit.Limiter.{TokenBucket}

pub record BybitConfig : Type 0 where
  pub api_key : String
  pub api_secret : String
  pub testnet : Bool
  pub trading_enabled : Bool
  pub live_confirm : Bool
  pub recv_window_ms : ℤ
  pub time_sync_ttl_sec : ℤ
  pub time_safety_margin_ms : ℤ
  pub auto_time_sync : Bool

-- `base_url`
abbrev pub base_url : BybitConfig → String
base_url cfg = if cfg.testnet then "https://api-testnet.bybit.com" else "https://api.bybit.com"

pub data Method : Type 0 where
  http_get http_post : Method

pub record Request : Type 0 where
  pub method : Method
  pub url : String
  pub params : Dict Json
  pub headers : Dict String
  pub content : String

-- What the code reads of an `httpx.Response`; `json` is none where it raises ValueError.
pub record Response : Type 0 where
  pub status_code : ℕ
  pub is_success : Bool
  pub reason_phrase : String
  pub json : Option Json

-- `readings` counts the readings of the clocks, and `sent` has the requests, the last one first.
pub record Session (W : Type 0) : Type 0 where
  pub limiter : TokenBucket W
  pub degraded_reason : Option String
  pub server_time_offset_ms : Option ℤ
  pub server_time_synced_at_ms : Option ℤ
  pub last_server_time_ms : Option ℤ
  pub last_time_sync_error : Option String
  pub readings : ℕ
  pub sent : List Request

abbrev pub Action : Type 0 → Type 0 → Type 0
Action W A = Session W → Result Failure A × Session W

module _ {W : Type 0} where
  -- what follows a method that has returned; an exception ends the chain
  abbrev pub continue :
      {A B : Type 0}
      → Result Failure A × Session W
      → (A → Action W B)
      → Result Failure B × Session W
  continue (Result.ok a, s) k = k a s
  continue (Result.raised e, s) k = (Result.raised e, s)

  infixl 5 ◌>>=◌ ◌>>◌
  abbrev pub ◌>>=◌ : {A B : Type 0} → Action W A → (A → Action W B) → Action W B
  ◌>>=◌ m k s = continue (m s) k

  abbrev pub ◌>>◌ : {B : Type 0} → Action W (Unit {0}) → Action W B → Action W B
  m >> k = m >>= λ _. k

  abbrev pub return : {A : Type 0} → A → Action W A
  return a s = (Result.ok a, s)

  abbrev pub raise : {A : Type 0} → Failure → Action W A
  raise e s = (Result.raised e, s)

  -- a result that does not touch the session
  abbrev pub from_result : {A : Type 0} → Result Failure A → Action W A
  from_result m s = (m, s)

  abbrev pub read : Action W (Session W)
  read s = (Result.ok s, s)

  abbrev pub update : (Session W → Session W) → Action W (Unit {0})
  update f s = (Result.ok tt, f s)

  -- `if condition: raise e`
  abbrev pub raise_when : Bool → Failure → Action W (Unit {0})
  raise_when b e s = (if b then Result.raised e else Result.ok tt, s)
