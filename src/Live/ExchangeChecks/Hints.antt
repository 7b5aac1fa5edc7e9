-- ===== src/Live/ExchangeChecks/Hints.antt =====
-- What the preflight advises an operator on errors of the private calls
-- (`_operator_hint_for_bybit_private_errors` of app/live/preflight.py).
use one_year_billion.Common.{Bool, ◌||◌, List, [], ◌∷◌, String, ◌≟◌, is_in, any, if◌then◌else◌}
use one_year_billion.Common.Json.{Json, Fields, is_text, get_json, get_or}

abbrev pub hint_timestamp : String
hint_timestamp =
    "retCode=10002 означает не плохой ключ, а рассинхрон времени/recv_window. Backend теперь синхронизирует подпись с Bybit server time; если ошибка повторяется, включите синхронизацию часов Windows и повторите preflight."

abbrev pub hint_key : String
hint_key =
    "retCode похож на проблему ключа/подписи/permissions: чаще всего перепутаны testnet/live keys или неверный secret."

abbrev pub hints : List String
hints =
    "Проверьте, что BYBIT_TESTNET=true и ключи созданы именно в Bybit testnet, а не в live-кабинете."
    ∷ "Проверьте BYBIT_API_KEY/BYBIT_API_SECRET: без пробелов, переносов строк и кавычек в .env."
    ∷ "Проверьте IP whitelist ключа Bybit: текущий IP/VPS должен быть разрешен."
    ∷ "Проверьте права ключа: для Linear USDT Futures нужны contract/derivatives trade/order permissions."
    ∷ "После исправления перезапустите backend и повторите Testnet preflight." ∷ []

abbrev pub insert_hint : Bool → String → List String → List String
insert_hint b hint rest = if b then hint ∷ rest else rest

module _ (str_of : Json → String) where
  -- `_operator_hint_for_bybit_private_errors`
  unfoldable pub operator_hint : List Fields → List String
  unfolding get_or
  operator_hint [] = []
  operator_hint (e ∷ es) =
      let errors = e ∷ es in
      insert_hint
        (any
          (λ err.
            is_in (str_of (get_json "ret_code" err)) ("10003" ∷ "10004" ∷ "10005" ∷ "10007" ∷ []))
          errors)
        hint_key
        (insert_hint
          (any
            (λ err.
              str_of (get_json "ret_code" err) ≟ "10002"
              || is_text "bybit_timestamp_window_error" (get_json "code" err))
            errors)
          hint_timestamp hints)
