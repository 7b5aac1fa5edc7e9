-- ===== src/Regime/Laws/Cooldown.antt =====
-- After DE_RISK no strategy trades until the cooldown is over.
use one_year_billion.Common.{
  ℕ, ◌≤◌, ◌<◌, ◌+◌, ◌*◌, ◌≡◌, refl, Bool, true, false, leb, ≟_refl, Option, none, some, List, [],
  ◌∷◌, arith, get, get-put, String, All,
}
use one_year_billion.Domain.{Regime}
use one_year_billion.Regime.Priority.{is_normal}
use one_year_billion.Regime.Classifier.{
  Memory, begin_cooldown, await_riskier, settle, apply_cooldown_and_hysteresis, is_before,
}

-- What the classifier of one symbol is given at one time.
pub record Sighting : Type 0 where
  pub at : ℕ
  pub candidate : Regime

module _ (bars cooldown_seconds : ℕ) (symbol : String) where
  -- the memory after a sequence of sightings
  unfoldable pub after_sightings : List Sighting → Memory → Memory
  after_sightings [] m = m
  after_sightings (s ∷ ss) m =
      after_sightings ss
        (apply_cooldown_and_hysteresis bars cooldown_seconds symbol s.candidate s.at m).memory

  await_riskier-cooldown_until :
      (c previous : Regime) (m : Memory)
      → (await_riskier bars cooldown_seconds symbol c previous m).memory.cooldown_until
        ≡ m.cooldown_until
  unfolding await_riskier
  await_riskier-cooldown_until c previous m = ground arith

  settle-cooldown_until :
      (c : Regime) (previous : Option Regime) (m : Memory)
      → (settle bars cooldown_seconds symbol c previous m).memory.cooldown_until ≡ m.cooldown_until
  unfolding settle
  settle-cooldown_until c none m = refl
  settle-cooldown_until c (some previous) m =
      ground (arith, await_riskier-cooldown_until c previous m)

  apply-cooldown_until :
      (c : Regime) (now : ℕ) (m : Memory)
      → (apply_cooldown_and_hysteresis bars cooldown_seconds symbol c now m).memory.cooldown_until
        ≡ (begin_cooldown bars cooldown_seconds symbol c now m).cooldown_until
  unfolding apply_cooldown_and_hysteresis
  apply-cooldown_until c now m =
      let begun = begin_cooldown bars cooldown_seconds symbol c now m in
      ground (arith, settle-cooldown_until c (get symbol begun.last_regime) begun)

  -- No new entry before the time `until`.
  unfoldable pub is_cooling : ℕ → Memory → Bool
  is_cooling until m = elim (get symbol m.cooldown_until) [ none ↦ false | some t ↦ leb until t ]

  begin_cooldown-is_cooling :
      (c : Regime) (until now : ℕ) (m : Memory)
      → until ≤ now + cooldown_seconds * 1000000
      → is_cooling until m ≡ true
      → is_cooling until (begin_cooldown bars cooldown_seconds symbol c now m) ≡ true
  unfolding is_cooling begin_cooldown
  begin_cooldown-is_cooling c until now m le h = ground (
    arith,
    ≟_refl symbol,
    get-put symbol symbol (now + cooldown_seconds * 1000000) m.cooldown_until,
  )

  is_cooling-cong :
      (until : ℕ) (m n : Memory)
      → n.cooldown_until ≡ m.cooldown_until
      → is_cooling until m ≡ true
      → is_cooling until n ≡ true
  unfolding is_cooling
  is_cooling-cong until m n e h = rw e h

  apply-is_cooling :
      (until : ℕ) (c : Regime) (now : ℕ) (m : Memory)
      → until ≤ now + cooldown_seconds * 1000000
      → is_cooling until m ≡ true
      → is_cooling until (apply_cooldown_and_hysteresis bars cooldown_seconds symbol c now m).memory
        ≡ true
  apply-is_cooling until c now m le h =
      is_cooling-cong until _ _ (apply-cooldown_until c now m)
        (begin_cooldown-is_cooling c until now m le h)

  after_sightings-is_cooling :
      (until : ℕ) (ss : List Sighting) (m : Memory)
      → All (λ s. until ≤ s.at + cooldown_seconds * 1000000) ss
      → is_cooling until m ≡ true
      → is_cooling until (after_sightings ss m) ≡ true
  unfolding after_sightings is_cooling
  after_sightings-is_cooling until [] m le h = h
  after_sightings-is_cooling until (s ∷ ss) m (le, les) h =
      after_sightings-is_cooling until ss
        (apply_cooldown_and_hysteresis bars cooldown_seconds symbol s.candidate s.at m).memory les
        (apply-is_cooling until s.candidate s.at m le h)

  is_cooling-is_before :
      (until now : ℕ) (m : Memory)
      → now < until
      → is_cooling until m ≡ true
      → is_before now (get symbol m.cooldown_until) ≡ true
  unfolding is_cooling
  is_cooling-is_before until now m lt h = ground arith

  de_risk-is_cooling :
      (start : ℕ) (m : Memory)
      → 0 < cooldown_seconds
      → is_cooling
          (start + cooldown_seconds * 1000000)
          (apply_cooldown_and_hysteresis bars cooldown_seconds symbol Regime.de_risk start m).memory
        ≡ true
  unfolding is_cooling begin_cooldown
  de_risk-is_cooling start m pos = ground (
    arith,
    ≟_refl symbol,
    apply-cooldown_until Regime.de_risk start m,
    get-put symbol symbol (start + cooldown_seconds * 1000000) m.cooldown_until,
  )

  allow_cooldown :
      (start : ℕ) (ss : List Sighting)
      → All (λ s. start ≤ s.at) ss
      → All (λ s. start + cooldown_seconds * 1000000 ≤ s.at + cooldown_seconds * 1000000) ss
  allow_cooldown start [] all_later = tt
  allow_cooldown start (s ∷ ss) (l, ls) = (omega (arith, l), allow_cooldown start ss ls)

  -- Once DE_RISK was seen at `start`, a candidate that would admit entries is answered by NO_TRADE
  -- at every time before `start` plus the cooldown, whatever was seen in between, at times not
  -- before `start`.
  pub cooldown_blocks_entries :
      (start now : ℕ) (ss : List Sighting) (c : Regime) (m : Memory)
      → now < start + cooldown_seconds * 1000000
      → start ≤ now
      → All (λ s. start ≤ s.at) ss
      → is_normal c ≡ true
      → (apply_cooldown_and_hysteresis bars cooldown_seconds symbol c now
          (after_sightings (record { at = start; candidate = Regime.de_risk } ∷ ss) m)).regime
        ≡ Regime.no_trade
  unfolding apply_cooldown_and_hysteresis after_sightings
  cooldown_blocks_entries start now ss c m lt le later normal =
      let blocked = start + cooldown_seconds * 1000000 in
      let begun =
        apply_cooldown_and_hysteresis bars cooldown_seconds symbol Regime.de_risk start m in
      let reached = after_sightings (record { at = start; candidate = Regime.de_risk } ∷ ss) m in
      let cooling =
        after_sightings-is_cooling blocked ss begun.memory (allow_cooldown start ss later)
          (de_risk-is_cooling start m (omega (arith, lt, le))) in
      let still = begin_cooldown-is_cooling c blocked now reached (omega (arith, le)) cooling in
      let before =
        is_cooling-is_before blocked now (begin_cooldown bars cooldown_seconds symbol c now reached)
          lt still in
      ground arith
