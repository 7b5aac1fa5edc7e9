-- ===== src/Execution/Bybit/Orders/Laws.antt =====
-- What an order that is placed has shown, and how many requests the calls send.
use Prim.Native.String.{◌++◌}
use one_year_billion.Common.{
  ◌||◌, List, ◌∷◌, sym, ◌∙◌, Dict, ℕ, zero, suc, ◌+◌, ◌≤◌, Bool, true, false, ◌&&◌, not, ◌≡◌, refl,
  ap, arith, inl, inr, Bool-cases, String, length, Pass, Result, raise_first, raise_first-Pass,
  if◌then◌else◌,
}
use one_year_billion.Common.Float.{Float}
use one_year_billion.Common.Json.{Json, Items, Fields, get_json, truthy_json, is_text, is_null}
use one_year_billion.Execution.Bybit.Error.{Failure}
use one_year_billion.Execution.Bybit.Values.{attr_get, or_empty, equals_number}
use one_year_billion.Execution.Bybit.Session.{
  BybitConfig, Session, Action, Request, Method, base_url, continue, return, raise_when,
}
use one_year_billion.Execution.Bybit.Answers.{is_accepted, is_rate_limit}
use one_year_billion.Execution.Bybit.Answers.Laws.{continue-eq-ok, accept-eq-ok, sent-accept}
use one_year_billion.Execution.Bybit.Client.{
  Outside, guard_rate_limit, send, headers, no_credentials, private_post, public_get,
}
use one_year_billion.Execution.Bybit.Orders.{
  order_guards, paper_ack, place_order, fetch_linear_instruments_page, fetch_pages,
  fetch_all_linear_instruments, items_in, append_items,
}

-- the acknowledgement, unless a guard has raised
abbrev pub acknowledged : Result Failure (Unit {0}) → Fields → Result Failure Fields
acknowledged (Result.ok _) ack = Result.ok ack
acknowledged (Result.raised e) ack = Result.raised e

paper_chain :
    {W : Type 0} (m : Result Failure (Unit {0})) (b : Bool) (ack : Fields) (post : Action W Fields)
    (s : Session W)
    → b ≡ false
    → continue {W = W} (m, s) (λ _. if not b then return ack else post) ≡ (acknowledged m ack, s)
paper_chain (Result.ok tt) b ack post s off = rw off refl
paper_chain (Result.raised e) b ack post s off = refl

live_chain :
    {W : Type 0} (m : Result Failure (Unit {0})) (b : Bool) (ack : Fields) (post : Action W Fields)
    (s : Session W) {answer : Fields} {s' : Session W}
    → b ≡ true
    → continue {W = W} (m, s) (λ _. if not b then return ack else post) ≡ (Result.ok answer, s')
    → (m ≡ Result.ok tt) × (post s ≡ (Result.ok answer, s'))
live_chain (Result.ok tt) true ack post s on h = (refl, h)
live_chain (Result.ok tt) false ack post s on h = cc
live_chain (Result.raised e) b ack post s on h = cc

passes_when :
    {W : Type 0} (b : Bool) (e : Failure) (s : Session W) {s' : Session W}
    → raise_when b e s ≡ (Result.ok tt, s')
    → b ≡ false
passes_when true e s h = cc
passes_when false e s h = refl

module _ (str_of : Json → String) (hash_payload : Fields → String) (dumps : Fields → String)
    {W : Type 0} ⦃f : Float W⦄ (outside : Outside W) (cfg : BybitConfig) where
  -- Unless trading is enabled and confirmed, placing an order sends no request and leaves the
  -- adapter as it is: it returns the paper's answer, or raises what the payload's guards raise.
  pub place_order_on_paper :
      (payload : Fields) (s : Session W)
      → (cfg.trading_enabled && cfg.live_confirm) ≡ false
      → place_order str_of hash_payload dumps outside cfg payload s ≡ (
        acknowledged
            (raise_first (order_guards str_of hash_payload dumps payload))
            (paper_ack str_of hash_payload dumps payload),
        s,
      )
  unfolding place_order
  place_order_on_paper payload s off =
      paper_chain (raise_first (order_guards str_of hash_payload dumps payload))
        (cfg.trading_enabled && cfg.live_confirm) (paper_ack str_of hash_payload dumps payload)
        (private_post outside cfg "/v5/order/create" (dumps payload)) s off

  -- The last request is a POST of the body to the path.
  abbrev pub IsPosted : String → String → Session W → Type 0
  IsPosted path body s =
      (request : Request) × (before : List Request) × (s.sent ≡ request ∷ before)
      × (request.method ≡ Method.http_post)
      × (request.url ≡ base_url cfg ++ path)
      × (request.content ≡ body)

  private_post_shows :
      (path body : String) (s : Session W) {answer : Fields} {s' : Session W}
      → private_post outside cfg path body s ≡ (Result.ok answer, s')
      → (no_credentials outside cfg ≡ false)
        × IsPosted path body s'
        × (is_rate_limit (get_json "retCode" answer) ≡ false)
        × (is_accepted (get_json "retCode" answer) ≡ true)
  unfolding private_post
  private_post_shows path body s h =
      let (_, s1, known, h1) = continue-eq-ok (raise_when (no_credentials outside cfg) _ s) _ h in
      let (_, s2, allowed, h2) = continue-eq-ok (guard_rate_limit outside s1) _ h1 in
      let (signed, s3, made, h3) = continue-eq-ok (headers outside cfg body s2) _ h2 in
      let (response, s4, sent, h4) = continue-eq-ok (send outside _ s3) _ h3 in
      let kept = sent-accept outside.str_of cfg path response s4 in
      let (_, _, limit, accepted) = accept-eq-ok outside.str_of cfg path response s4 h4 in
      (
        passes_when (no_credentials outside cfg) _ s known,
        (
          _,
          s3.sent,
          sym (ap (λ p. p.1.sent) h4) ∙ kept ∙ sym (ap (λ p. p.1.sent) sent),
          refl,
          refl,
          refl,
        ),
        limit,
        accepted,
      )

  -- With trading enabled and confirmed, an order whose placing returns has passed every guard of
  -- its payload, and with credentials its payload was sent to the exchange as the last request, whose
  -- answer has a `retCode` that is 0 or is missing, and is no rate limit.
  pub placed_order_sent :
      (payload : Fields) (s : Session W) {answer : Fields} {s' : Session W}
      → (cfg.trading_enabled && cfg.live_confirm) ≡ true
      → place_order str_of hash_payload dumps outside cfg payload s ≡ (Result.ok answer, s')
      → Pass (order_guards str_of hash_payload dumps payload)
        × (no_credentials outside cfg ≡ false)
        × IsPosted "/v5/order/create" (dumps payload) s'
        × (is_rate_limit (get_json "retCode" answer) ≡ false)
        × ((equals_number 0 (get_json "retCode" answer)
              || is_text "0" (get_json "retCode" answer)
              || is_null (get_json "retCode" answer))
            ≡ true)
  unfolding place_order is_accepted
  placed_order_sent payload s on h =
      let (guarded, posted) =
        live_chain (raise_first (order_guards str_of hash_payload dumps payload))
          (cfg.trading_enabled && cfg.live_confirm) (paper_ack str_of hash_payload dumps payload)
          (private_post outside cfg "/v5/order/create" (dumps payload)) s on h in
      let (known, sent, limit, accepted) =
        private_post_shows "/v5/order/create" (dumps payload) s posted in
      (
        raise_first-Pass (order_guards str_of hash_payload dumps payload) guarded,
        known,
        sent,
        limit,
        accepted,
      )

-- A bound on the number of requests sent after a first step and after the rest bounds the chain's.
count-continue :
    {W A B : Type 0} (p : Result Failure A × Session W) (k : A → Action W B) (n m : ℕ)
    → length p.1.sent ≤ n
    → n ≤ m
    → ((a : A) (s : Session W) → length s.sent ≤ n → length (k a s).1.sent ≤ m)
    → length (continue {W = W} p k).1.sent ≤ m
count-continue (Result.ok a, s) k n m h le next = next a s h
count-continue (Result.raised e, s) k n m h le next = omega arith

module _ {W : Type 0} ⦃f : Float W⦄ (outside : Outside W) (cfg : BybitConfig) where
  sent-guard_rate_limit : (s : Session W) → (guard_rate_limit outside s).1.sent ≡ s.sent
  unfolding guard_rate_limit
  sent-guard_rate_limit s = ground arith

  sent-public_get :
      (path : String) (params : Dict Json) (s : Session W)
      → length (public_get outside cfg path params s).1.sent ≤ length s.sent + 1
  unfolding public_get send
  sent-public_get path params s =
      count-continue (guard_rate_limit outside s) _ (length s.sent) (length s.sent + 1)
        (omega (arith, ap length (sent-guard_rate_limit s))) (omega arith)
        (λ _ s1 h1.
          count-continue (send outside _ s1) _ (length s.sent + 1) (length s.sent + 1) (omega arith)
            (omega arith)
            (λ r s2 h2. omega (arith, ap length (sent-accept outside.str_of cfg path r s2))))

  last_page :
      (pages : ℕ) (next : Json) (found : Items) (s : Session W) (m : ℕ)
      → length s.sent ≤ m
      → length (fetch_pages outside cfg pages next found s).1.sent ≤ m
      → length
          ((if not (truthy_json next)
              then return {W = W} found
              else fetch_pages outside cfg pages next found)
            s).1.sent
        ≤ m
  last_page pages next found s m h k = elim (Bool-cases (truthy_json next)) [
    | inl e ↦ rw e k
    | inr e ↦ rw e h
  ]

  pages_bounded :
      (pages : ℕ) (cursor : Json) (found : Items) (s : Session W)
      → length (fetch_pages outside cfg pages cursor found s).1.sent ≤ length s.sent + pages
  unfolding fetch_pages fetch_linear_instruments_page
  pages_bounded zero cursor found s = omega arith
  pages_bounded (suc pages) cursor found s =
      let n = length s.sent + 1 in
      let m = length s.sent + suc pages in
      count-continue (fetch_linear_instruments_page outside cfg cursor 500 s) _ n m
        (sent-public_get "/v5/market/instruments-info" _ s) (omega arith)
        (λ page s1 h1.
          count-continue (attr_get "list" Json.null (or_empty (get_json "result" page)), s1) _ n m
            h1 (omega arith)
            (λ listed s2 h2.
              count-continue (items_in outside cfg listed, s2) _ n m h2 (omega arith)
                (λ more s3 h3.
                  count-continue
                    (attr_get "nextPageCursor" Json.null (or_empty (get_json "result" page)), s3) _
                    n m h3 (omega arith)
                    (λ next s4 h4.
                      last_page pages next (append_items outside cfg found more) s4 m (omega arith)
                        (omega (
                          arith,
                          pages_bounded pages next (append_items outside cfg found more) s4,
                        ))))))

  -- The loop over the pages of instruments ends after at most `max_pages` requests, whatever
  -- cursors the exchange answers.
  pub instruments_bounded :
      (max_pages : ℕ) (s : Session W)
      → length (fetch_all_linear_instruments outside cfg max_pages s).1.sent
        ≤ length s.sent + max_pages
  unfolding fetch_all_linear_instruments
  instruments_bounded max_pages s = pages_bounded max_pages Json.null Items.end s
