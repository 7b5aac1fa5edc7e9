-- ===== src/Regime/Priority.antt =====
-- The priority order of the regimes: the safer, the further to the left.
use one_year_billion.Common.{
  ℕ, ◌≤◌, leb, ltb, ◌==◌, Bool, List, [], ◌∷◌, Memᴰ, if◌then◌else◌, arith,
}
use one_year_billion.Domain.{Regime}

-- `_PRIORITY_INDEX`
abbrev pub priority_index : Regime → ℕ
priority_index Regime.de_risk = 0
priority_index Regime.no_trade = 1
priority_index Regime.news_risk = 2
priority_index Regime.liquidation = 3
priority_index Regime.high_vol = 4
priority_index Regime.trend_up = 5
priority_index Regime.trend_down = 6
priority_index Regime.range = 7
priority_index Regime.low_vol = 8

abbrev pub same_regime : Regime → Regime → Bool
same_regime r s = priority_index r == priority_index s

-- `_IMMEDIATE`
abbrev pub is_immediate : Regime → Bool
is_immediate r = ltb (priority_index r) 4

-- `_NORMAL`
abbrev pub is_normal : Regime → Bool
is_normal r = leb 4 (priority_index r)

-- `safer_regime(r, *rs)`: Python's `min` keeps the first of two equals
unfoldable pub safer_regime : Regime → List Regime → Regime
safer_regime r [] = r
safer_regime r (s ∷ rs) =
    safer_regime (if ltb (priority_index s) (priority_index r) then s else r) rs

pub safer_regime-le_first :
    (r : Regime) (rs : List Regime) → priority_index (safer_regime r rs) ≤ priority_index r
unfolding safer_regime
safer_regime-le_first r [] = omega arith
safer_regime-le_first r (s ∷ rs) =
    ground
      (arith, safer_regime-le_first (if ltb (priority_index s) (priority_index r) then s else r) rs)

pub safer_regime-le_any :
    (r : Regime) (rs : List Regime) {s : Regime}
    → Memᴰ s rs
    → priority_index (safer_regime r rs) ≤ priority_index s
unfolding safer_regime
safer_regime-le_any r [] m = elim m [ ]
safer_regime-le_any r (t ∷ rs) (Memᴰ.head e) = ground (
  arith,
  safer_regime-le_first (if ltb (priority_index t) (priority_index r) then t else r) rs,
  e,
)
safer_regime-le_any r (t ∷ rs) (Memᴰ.tail m) =
    safer_regime-le_any (if ltb (priority_index t) (priority_index r) then t else r) rs m
