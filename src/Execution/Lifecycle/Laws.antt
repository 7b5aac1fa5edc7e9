-- ===== src/Execution/Lifecycle/Laws.antt =====
-- What a life of an order can look like: any sequence of transitions that the table allows.
use one_year_billion.Common.{
  ◌≡◌, ◌≢◌, ◌⊎◌, inl, inr, Bool, true, false, List, [], ◌∷◌, Memᴰ, sym, refl, ap, ◌++◌, length, ◌≤◌,
  arith,
}
use one_year_billion.Domain.{
  OrderState, pending_signal, risk_rejected, approved, order_submitted, partially_filled, filled,
  protected_with_sltp, reduce_only_exiting, closed, error_reconciliation_required, blocked, de_risk,
}
use one_year_billion.Execution.Lifecycle.{can_transition}

-- `ts` is what an order in the state `s` goes through next.
abbrev pub IsPath : OrderState → List OrderState → Type 0
IsPath s [] = Unit
IsPath s (t ∷ ts) = (can_transition s t ≡ true) × IsPath t ts

abbrev pub last : OrderState → List OrderState → OrderState
last s [] = s
last s (t ∷ ts) = last t ts

-- The order may be at the exchange, or have a position there.
abbrev pub is_exposed : OrderState → Bool
is_exposed order_submitted = true
is_exposed partially_filled = true
is_exposed filled = true
is_exposed protected_with_sltp = true
is_exposed reduce_only_exiting = true
is_exposed error_reconciliation_required = true
is_exposed _ = false

into_exposure :
    (s t : OrderState)
    → can_transition s t ≡ true
    → s ≢ de_risk
    → (is_exposed t ≡ false) ⊎ (is_exposed s ≡ true) ⊎ (s ≡ approved) × (t ≡ order_submitted)
unfolding can_transition
into_exposure s t h n = ground arith

not_into_de_risk : (s t : OrderState) → can_transition s t ≡ true → t ≢ de_risk
unfolding can_transition
not_into_de_risk s t h = ground arith

out_of_exposure :
    (s t : OrderState)
    → can_transition s t ≡ true
    → is_exposed s ≡ true
    → (is_exposed t ≡ true) ⊎ (t ≡ closed) ⊎ (t ≡ blocked)
unfolding can_transition
out_of_exposure s t h e = ground arith

-- No transition leads into `DE_RISK`: an order that is not in it never gets there.
pub de_risk_unreachable :
    (s : OrderState) (ts : List OrderState) → s ≢ de_risk → IsPath s ts → last s ts ≢ de_risk
de_risk_unreachable s [] n p = n
de_risk_unreachable s (t ∷ ts) n (h, p) = de_risk_unreachable t ts (not_into_de_risk s t h) p

-- An order without exposure that is not in `DE_RISK` gets to a state with exposure only through
-- `ORDER_SUBMITTED`, directly after `APPROVED`.
pub exposure_needs_approval :
    (s : OrderState) (ts : List OrderState)
    → s ≢ de_risk
    → is_exposed s ≡ false
    → IsPath s ts
    → is_exposed (last s ts) ≡ true
    → (before after : List OrderState) × (s ∷ ts ≡ before ++ (approved ∷ order_submitted ∷ after))
exposure_needs_approval s [] n c p e = cc
exposure_needs_approval s (t ∷ ts) n c (h, p) e = elim (into_exposure s t h n) [
  | inl safe ↦
      let (before, after, split) = exposure_needs_approval t ts (not_into_de_risk s t h) safe p e in
      (s ∷ before, after, ap (◌∷◌ s) split)
  | inr (inl exposed) ↦ cc
  | inr (inr (at, to)) ↦ ([], ts, rw (at, to) refl)
]

-- An order with exposure is back at a new signal only after it was closed or blocked.
pub no_signal_while_exposed :
    (s : OrderState) (ts : List OrderState)
    → is_exposed s ≡ true
    → IsPath s ts
    → last s ts ≡ pending_signal
    → Memᴰ closed ts ⊎ Memᴰ blocked ts
no_signal_while_exposed s [] x p e = cc
no_signal_while_exposed s (t ∷ ts) x (h, p) e = elim (out_of_exposure s t h x) [
  | inl still ↦ elim (no_signal_while_exposed t ts still p e) [
    | inl m ↦ inl (Memᴰ.tail m)
    | inr m ↦ inr (Memᴰ.tail m)
  ]
  | inr (inl out) ↦ inl (Memᴰ.head (sym out))
  | inr (inr out) ↦ inr (Memᴰ.head (sym out))
]

way_to_closed : OrderState → List OrderState
way_to_closed pending_signal = risk_rejected ∷ closed ∷ []
way_to_closed risk_rejected = closed ∷ []
way_to_closed approved = order_submitted ∷ closed ∷ []
way_to_closed order_submitted = closed ∷ []
way_to_closed partially_filled = reduce_only_exiting ∷ closed ∷ []
way_to_closed filled = reduce_only_exiting ∷ closed ∷ []
way_to_closed protected_with_sltp = closed ∷ []
way_to_closed reduce_only_exiting = closed ∷ []
way_to_closed closed = []
way_to_closed error_reconciliation_required = closed ∷ []
way_to_closed blocked = pending_signal ∷ risk_rejected ∷ closed ∷ []
way_to_closed de_risk = closed ∷ []

closing-IsPath :
    (s : OrderState)
    → IsPath s (way_to_closed s)
      × (last s (way_to_closed s) ≡ closed)
      × (length (way_to_closed s) ≤ 3)
unfolding way_to_closed can_transition
closing-IsPath pending_signal = ground arith
closing-IsPath _ = ground arith

-- From every state an order can be closed, in at most three transitions.
pub can_always_close :
    (s : OrderState) → (ts : List OrderState) × IsPath s ts × (last s ts ≡ closed) × (length ts ≤ 3)
can_always_close s =
    let (path, ends, short) = closing-IsPath s in (way_to_closed s, path, ends, short)
