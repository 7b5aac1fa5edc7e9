-- ===== src/Common/Guards.antt =====
-- Chains of `fail_if(condition, reason)`, or `if condition: reasons.append(reason)`: a list of the
-- conditions with their reasons, in the order of the source, and the reasons that it collects.
use Prim.Native.Nat.{ℕ, zero, suc}
use mathlib.Core.Path.{◌≡◌, refl}
use mathlib.Core.Bool.{Bool, true, false}
use mathlib.Core.List.{List, [], ◌∷◌, ◌++◌}
use native.Mathlib.Omega.{arith}
use one_year_billion.Common.Results.{Result}
use one_year_billion.Common.Base.{if◌then◌else◌, is_empty, All, All-split}

abbrev pub Guard : Type 0 → Type 0
Guard R = record { fails : Bool; reason : R }

infix 68 ◌⇒◌
abbrev pub ◌⇒◌ : {R : Type 0} → Bool → R → Guard R
b ⇒ r = record { fails = b; reason = r }

module _ {R : Type 0} where
  abbrev pub collect : List (Guard R) → List R
  collect [] = []
  collect (g ∷ gs) = let rest = collect gs in if g.fails then g.reason ∷ rest else rest

  -- No condition of the chain holds.
  abbrev pub Pass : List (Guard R) → Type 0
  Pass = All (λ g. g.fails ≡ false)

  pub Pass-collect : (gs : List (Guard R)) → is_empty (collect gs) ≡ true → Pass gs
  Pass-collect [] h = tt
  Pass-collect (g ∷ gs) h = ground (arith, Pass-collect gs)

  pub collect-Pass : (gs : List (Guard R)) → Pass gs → collect gs ≡ []
  collect-Pass [] h = refl
  collect-Pass (g ∷ gs) h = ground (arith, collect-Pass gs h.1)

  -- the condition at a place of the chain
  abbrev pub fails_at : ℕ → List (Guard R) → Bool
  fails_at n [] = false
  fails_at zero (g ∷ gs) = g.fails
  fails_at (suc n) (g ∷ gs) = fails_at n gs

  pub Pass-at : (n : ℕ) (gs : List (Guard R)) → Pass gs → fails_at n gs ≡ false
  Pass-at n [] p = refl
  Pass-at zero (g ∷ gs) p = p.0
  Pass-at (suc n) (g ∷ gs) p = Pass-at n gs p.1

  pub Pass-append : (gs hs : List (Guard R)) → Pass (gs ++ hs) → Pass gs × Pass hs
  Pass-append gs hs = All-split (λ g. g.fails ≡ false) gs hs

  pub collect-append : (gs hs : List (Guard R)) → collect (gs ++ hs) ≡ collect gs ++ collect hs
  collect-append [] hs = refl
  collect-append (g ∷ gs) hs = ground (arith, collect-append gs hs)

-- A condition that has added no reason does not hold.
pub not_noted :
    {R : Type 0} (b : Bool) (r : R) → is_empty (if b then r ∷ [] else []) ≡ true → b ≡ false
not_noted true r h = cc
not_noted false r h = refl

-- Reasons that are collected under a condition that holds are collected.
pub noted_under :
    {R : Type 0} (b : Bool) (rs : List R)
    → is_empty (if b then rs else []) ≡ true
    → b ≡ true
    → is_empty rs ≡ true
noted_under true rs h k = h
noted_under false rs h k = cc

-- The chain `if condition: raise error`, which stops at the first condition that holds.
module _ {E : Type 0} where
  abbrev pub raise_first : List (Guard E) → Result E (Unit {0})
  raise_first [] = Result.ok tt
  raise_first (g ∷ gs) =
      let rest = raise_first gs in if g.fails then Result.raised g.reason else rest

  pub raise_first-Pass : (gs : List (Guard E)) → raise_first gs ≡ Result.ok tt → Pass gs
  raise_first-Pass [] h = tt
  raise_first-Pass (g ∷ gs) h = ground (arith, raise_first-Pass gs)

  pub Pass-raise_first : (gs : List (Guard E)) → Pass gs → raise_first gs ≡ Result.ok tt
  Pass-raise_first [] p = refl
  Pass-raise_first (g ∷ gs) p = ground (arith, Pass-raise_first gs p.1)
