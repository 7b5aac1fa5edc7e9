-- ===== src/Execution/Idempotency/LinkId.antt =====
-- The bound of the exchange on `orderLinkId`, 36 characters.
use Prim.Native.String.{◌++◌}
use one_year_billion.Common.{
  ℕ, ◌≤◌, ◌≡◌, refl, String, take, size, size-take, size-append, take_all, decimal, arith,
}
use one_year_billion.Execution.Idempotency.{deterministic_order_link_id}

prefix_size : size "cas26-" ≡ 6
unfolding size
prefix_size = refl

dash_size : size "-" ≡ 1
unfolding size
dash_size = refl

parts-size : (a d : String) → size a ≤ 3 → size d ≤ 20 → size ("cas26-" ++ a ++ "-" ++ d) ≤ 30
parts-size a d p q = simp (size-append, prefix_size, dash_size) (omega arith)

module _ (sha256_hex : String → String) where
  -- The link id keeps all of its parts: three letters of the action and twenty digits of the digest
  -- fit, so the cut at 36 characters takes nothing away, whatever the digest.
  pub link_id_whole :
      (signal_id risk_decision_id action : String) (sequence : ℕ)
      → let digest = take 20 (
          sha256_hex
            (signal_id ++ ":" ++ risk_decision_id ++ ":" ++ action ++ ":" ++ decimal sequence)) in
        let id =
          deterministic_order_link_id sha256_hex signal_id risk_decision_id action sequence in
        (id ≡ "cas26-" ++ take 3 action ++ "-" ++ digest) × (size id ≤ 30)
  unfolding deterministic_order_link_id
  link_id_whole s r a n =
      let digest = take 20 (sha256_hex (s ++ ":" ++ r ++ ":" ++ a ++ ":" ++ decimal n)) in
      let short = parts-size (take 3 a) digest (size-take 3 a) (size-take 20 _) in
      let whole = take_all 36 ("cas26-" ++ take 3 a ++ "-" ++ digest) (omega (arith, short)) in
      (whole, rw whole short)
