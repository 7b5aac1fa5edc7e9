-- ===== src/Live/Preflight/Order.antt =====
-- The orders in which a preflight and a list of its conditions test the same things.
use one_year_billion.Common.{
  Bool, true, false, not, ◌&&◌, ◌||◌, ◌≡◌, refl, sym, ◌∙◌, arith, is_empty, is_empty-sorted_set,
  if◌then◌else◌,
}
use one_year_billion.Config.Settings.{Settings}
use one_year_billion.Live.Report.{Report, all_hold, result_ok, conclude}
use one_year_billion.Live.Report.Laws.{result_ok-conclude}
use one_year_billion.Live.ExchangeChecks.Laws.{quiet}
use one_year_billion.Live.Preflight.{trading_confirmed}
use one_year_billion.Live.Preflight.Ready.{live_settings}

pub confirmed_of :
    (settings : Settings) (db : Bool)
    → live_settings settings db ≡ true
    → trading_confirmed settings ≡ true
confirmed_of settings db h = ground arith

pub parts :
    (a b c d : Bool) → (a && b && c && d) ≡ true → (a ≡ true) × (b ≡ true) × (c ≡ true) × (d ≡ true)
parts a b c d h = ground arith

-- with the checks of the exchange
pub asked_order :
    (set calm given required confirmed ready : Bool)
    → (required && confirmed) ≡ true
    → (ready && (given && (calm && set))) ≡ (set && calm && given && (not required || ready))
asked_order set calm given required confirmed ready h = ground arith

-- without them
pub unasked_order :
    (set calm given required confirmed ready : Bool)
    → (required && confirmed) ≡ false
    → (set ≡ true → confirmed ≡ true)
    → (given && (calm && set)) ≡ (set && calm && given && (not required || ready))
unasked_order true calm given required confirmed ready h k = let c = k refl in ground (arith, c)
unasked_order false calm given required confirmed ready h k = ground arith

pub quiet-branch :
    (b : Bool) (x y : Report)
    → quiet (if not b then x else y) ≡ (if not b then quiet x else quiet y)
quiet-branch true x y = refl
quiet-branch false x y = refl

pub testnet_order :
    (set calm known ready noted ran : Bool)
    → noted ≡ false
    → ran ≡ (ready && (calm && set))
    → (if not known then noted else ran) ≡ (set && calm && known && ready)
testnet_order set calm known ready noted ran h k = ground arith

pub both : (q a r : Bool) → q ≡ r → (r ≡ true → a ≡ true) → (q && a) ≡ r
both q a true h k = let b = k refl in ground (arith, b)
both q a false h k = ground arith

pub required_ready :
    (required confirmed ready : Bool)
    → (not required || ready) ≡ true
    → (required && confirmed) ≡ true
    → ready ≡ true
required_ready required confirmed ready h k = ground arith

pub reasons_decide :
    (r : Report)
    → (quiet r ≡ true → all_hold r.checks ≡ true)
    → is_empty (conclude r).reasons ≡ result_ok (conclude r)
unfolding conclude
reasons_decide r h =
    is_empty-sorted_set r.reasons
    ∙ sym (result_ok-conclude r ∙ both (quiet r) (all_hold r.checks) (quiet r) refl h)
