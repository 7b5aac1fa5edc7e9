-- ===== src/Execution/Bybit/Answers/Laws.antt =====
-- What an answer that is returned has shown, and that reading an answer sends nothing.
use one_year_billion.Common.{
  true, false, ◌≡◌, refl, ap, ◌∙◌, arith, List, String, Result, ok_injective,
}
use one_year_billion.Common.Json.{Json, Fields, get_json}
use one_year_billion.Execution.Bybit.Error.{Failure}
use one_year_billion.Execution.Bybit.Session.{
  BybitConfig, Response, Request, Session, Action, continue,
}
use one_year_billion.Execution.Bybit.Answers.{
  is_accepted, is_rate_limit, raise_status, raise_http_status_error, raise_if_bybit_degraded,
  raise_if_bybit_rejected, fields_of, accept,
}

module _ {W : Type 0} where
  -- A chain that returns has returned from its first step.
  pub continue-eq-ok :
      {A B : Type 0} (p : Result Failure A × Session W) (k : A → Action W B) {b : B}
      {s' : Session W}
      → continue p k ≡ (Result.ok b, s')
      → (a : A) × (s1 : Session W) × (p ≡ (Result.ok a, s1)) × (k a s1 ≡ (Result.ok b, s'))
  continue-eq-ok (Result.ok a, s1) k h = (a, s1, refl, h)
  continue-eq-ok (Result.raised e, s1) k h = cc

  module _ (str_of : Json → String) where
    status_passes :
        (r : Response) (path : String) (s : Session W) {s' : Session W}
        → raise_http_status_error str_of r path s ≡ (Result.ok tt, s')
        → (r.is_success ≡ true) × (s ≡ s')
    unfolding raise_http_status_error raise_status
    status_passes r path s h = ground arith

    degraded_passes :
        (payload : Fields) (path : String) (s : Session W) {s' : Session W}
        → raise_if_bybit_degraded str_of payload path s ≡ (Result.ok tt, s')
        → is_rate_limit (get_json "retCode" payload) ≡ false
    unfolding raise_if_bybit_degraded
    degraded_passes payload path s h = ground arith

    rejected_passes :
        (cfg : BybitConfig) (payload : Fields) (path : String) (s : Session W) {s' : Session W}
        → raise_if_bybit_rejected str_of cfg payload path s ≡ (Result.ok tt, s')
        → is_accepted (get_json "retCode" payload) ≡ true
    unfolding raise_if_bybit_rejected
    rejected_passes cfg payload path s h = ground arith

    -- An answer that is returned was a success with JSON fields, and its `retCode` is accepted and
    -- no rate limit.
    pub accept-eq-ok :
        (cfg : BybitConfig) (path : String) (r : Response) (s : Session W) {payload : Fields}
        {s' : Session W}
        → accept str_of cfg path r s ≡ (Result.ok payload, s')
        → (r.is_success ≡ true)
          × (fields_of r.json ≡ Result.ok payload)
          × (is_rate_limit (get_json "retCode" payload) ≡ false)
          × (is_accepted (get_json "retCode" payload) ≡ true)
    unfolding accept
    accept-eq-ok cfg path r s {payload} {s'} h =
        let (_, s1, status, h1) = continue-eq-ok (raise_http_status_error str_of r path s) _ h in
        let (fs, s2, read, h2) = continue-eq-ok (fields_of r.json, s1) _ h1 in
        let (_, s3, degraded, h3) =
          continue-eq-ok (raise_if_bybit_degraded str_of fs path s2) _ h2 in
        let (_, s4, rejected, h4) =
          continue-eq-ok (raise_if_bybit_rejected str_of cfg fs path s3) _ h3 in
        let same : fs ≡ payload = ok_injective (ap (λ p. p.0) h4) in
        (
          (status_passes r path s status).0,
          ap (λ p. p.0) read ∙ ap Result.ok same,
          rw⁻¹ same (degraded_passes fs path s2 degraded),
          rw⁻¹ same (rejected_passes cfg fs path s3 rejected),
        )

  -- A property of the requests sent is kept by a chain whose steps keep it.
  pub sent-continue :
      {A B : Type 0} (p : Result Failure A × Session W) (k : A → Action W B) (sent : List Request)
      → p.1.sent ≡ sent
      → ((a : A) (s : Session W) → s.sent ≡ sent → (k a s).1.sent ≡ sent)
      → (continue p k).1.sent ≡ sent
  sent-continue (Result.ok a, s) k sent h next = next a s h
  sent-continue (Result.raised e, s) k sent h next = h

  module _ (str_of : Json → String) where
    sent-raise_http_status_error :
        (r : Response) (path : String) (s : Session W)
        → (raise_http_status_error str_of r path s).1.sent ≡ s.sent
    unfolding raise_http_status_error raise_status
    sent-raise_http_status_error r path s = ground arith

    sent-raise_if_bybit_degraded :
        (payload : Fields) (path : String) (s : Session W)
        → (raise_if_bybit_degraded str_of payload path s).1.sent ≡ s.sent
    unfolding raise_if_bybit_degraded
    sent-raise_if_bybit_degraded payload path s = ground arith

    sent-raise_if_bybit_rejected :
        (cfg : BybitConfig) (payload : Fields) (path : String) (s : Session W)
        → (raise_if_bybit_rejected str_of cfg payload path s).1.sent ≡ s.sent
    unfolding raise_if_bybit_rejected
    sent-raise_if_bybit_rejected cfg payload path s = ground arith

    -- Reading an answer sends nothing.
    pub sent-accept :
        (cfg : BybitConfig) (path : String) (r : Response) (s : Session W)
        → (accept str_of cfg path r s).1.sent ≡ s.sent
    unfolding accept
    sent-accept cfg path r s =
        sent-continue (raise_http_status_error str_of r path s) _ s.sent
          (sent-raise_http_status_error r path s)
          (λ _ s1 e1.
            sent-continue (fields_of r.json, s1) _ s.sent e1
              (λ fs s2 e2.
                sent-continue (raise_if_bybit_degraded str_of fs path s2) _ s.sent
                  (sent-raise_if_bybit_degraded fs path s2 ∙ e2)
                  (λ _ s3 e3.
                    sent-continue (raise_if_bybit_rejected str_of cfg fs path s3) _ s.sent
                      (sent-raise_if_bybit_rejected cfg fs path s3 ∙ e3) (λ _ s4 e4. e4))))
