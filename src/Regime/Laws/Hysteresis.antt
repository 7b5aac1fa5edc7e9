-- ===== src/Regime/Laws/Hysteresis.antt =====
-- A riskier regime is taken up only after enough sightings in a row.
use one_year_billion.Common.{
  ℕ, zero, suc, ◌≤◌, ◌<◌, ◌≡◌, true, ≟_refl, Option, none, some, [], ◌∷◌, arith, get, get-put,
  String,
}
use one_year_billion.Domain.{Regime}
use one_year_billion.Regime.Priority.{priority_index, is_normal, safer_regime}
use one_year_billion.Regime.Classifier.{
  Memory, Settled, settle, await_riskier, apply_cooldown_and_hysteresis, begin_cooldown,
}

module _ (bars cooldown_seconds : ℕ) (symbol : String) (previous candidate : Regime) where
  -- The classifier trades in the regime `previous`, with no cooldown, and has seen `candidate` as
  -- often as the two last components say.
  pub record IsTrading (seen : Option Regime) (count : Option ℕ) (m : Memory) : Type 0 where
    pub calm : get symbol m.cooldown_until ≡ none
    pub last : get symbol m.last_regime ≡ some previous
    pub pending : get symbol m.pending_regime ≡ seen
    pub counted : get symbol m.pending_count ≡ count

  -- what the classifier answers to the candidate
  abbrev pub answer : ℕ → Memory → Settled
  answer now m = apply_cooldown_and_hysteresis bars cooldown_seconds symbol candidate now m

  -- its memory after `n` sightings of the candidate, the k-th at the time `time k`
  unfoldable pub after_repeats : (ℕ → ℕ) → ℕ → Memory → Memory
  after_repeats time zero m = m
  after_repeats time (suc n) m = (answer (time n) (after_repeats time n m)).memory

  module _ (enough : 2 ≤ bars) (normal : is_normal candidate ≡ true)
      (normal' : is_normal previous ≡ true)
      (riskier : priority_index previous < priority_index candidate) where
    safer_previous : safer_regime previous (candidate ∷ []) ≡ previous
    unfolding safer_regime
    safer_previous = ground arith

    answer-await_riskier :
        {seen : Option Regime} {count : Option ℕ} (now : ℕ) (m : Memory)
        → IsTrading seen count m
        → answer now m ≡ await_riskier bars cooldown_seconds symbol candidate previous m
    unfolding apply_cooldown_and_hysteresis begin_cooldown settle
    answer-await_riskier now m t = ground (arith, t.calm, t.last)

    first_sighting-regime :
        {count : Option ℕ} (m : Memory)
        → IsTrading none count m
        → (await_riskier bars cooldown_seconds symbol candidate previous m).regime ≡ previous
    unfolding await_riskier
    first_sighting-regime m t = ground (arith, t.pending, safer_previous)

    first_sighting-memory :
        {count : Option ℕ} (m : Memory)
        → IsTrading none count m
        → IsTrading
            (some candidate)
            (some 1)
            (await_riskier bars cooldown_seconds symbol candidate previous m).memory
    unfolding await_riskier
    first_sighting-memory m t = record {
      calm = ground (arith, t.pending, t.calm);
      last = ground (arith, t.pending, t.last);
      pending =
          ground
            (arith, t.pending, get-put symbol symbol candidate m.pending_regime, ≟_refl symbol);
      counted = ground (arith, t.pending, get-put symbol symbol 1 m.pending_count, ≟_refl symbol);
    }

    later_sighting-regime :
        {n : ℕ} (m : Memory)
        → suc n < bars
        → IsTrading (some candidate) (some n) m
        → (await_riskier bars cooldown_seconds symbol candidate previous m).regime ≡ previous
    unfolding await_riskier
    later_sighting-regime m lt t = ground (arith, lt, t.pending, t.counted, safer_previous)

    later_sighting-memory :
        {n : ℕ} (m : Memory)
        → suc n < bars
        → IsTrading (some candidate) (some n) m
        → IsTrading
            (some candidate)
            (some (suc n))
            (await_riskier bars cooldown_seconds symbol candidate previous m).memory
    unfolding await_riskier
    later_sighting-memory {n = n} m lt t = record {
      calm = ground (arith, t.pending, t.counted, t.calm);
      last = ground (arith, t.pending, t.counted, t.last);
      pending = ground (arith, t.pending, t.counted);
      counted = ground (
        arith,
        lt,
        t.pending,
        t.counted,
        get-put symbol symbol (suc n) m.pending_count,
        ≟_refl symbol,
      );
    }

    last_sighting-regime :
        {n : ℕ} (m : Memory)
        → bars ≤ suc n
        → IsTrading (some candidate) (some n) m
        → (await_riskier bars cooldown_seconds symbol candidate previous m).regime ≡ candidate
    unfolding await_riskier
    last_sighting-regime m le t = ground (arith, le, t.pending, t.counted)

    repeats-IsTrading :
        {count : Option ℕ} (time : ℕ → ℕ) (n : ℕ) (m : Memory)
        → suc n < bars
        → IsTrading none count m
        → IsTrading (some candidate) (some (suc n)) (after_repeats time (suc n) m)
    unfolding after_repeats
    repeats-IsTrading time zero m lt t =
        rw (after_repeats, answer-await_riskier (time 0) m t) (first_sighting-memory m t)
    repeats-IsTrading time (suc n) m lt t =
        let before = repeats-IsTrading time n m (omega (arith, lt)) t in
        rw (after_repeats, answer-await_riskier (time (suc n)) _ before)
          (later_sighting-memory (after_repeats time (suc n) m) lt before)

    -- Trading in a normal regime without a cooldown, the classifier goes on answering it while a
    -- riskier candidate was seen fewer than `hysteresis_bars` times in a row.
    pub riskier_waits :
        {count : Option ℕ} (time : ℕ → ℕ) (n : ℕ) (m : Memory)
        → suc n < bars
        → IsTrading none count m
        → (answer (time n) (after_repeats time n m)).regime ≡ previous
    unfolding after_repeats
    riskier_waits time zero m lt t =
        rw (answer-await_riskier (time 0) m t) (first_sighting-regime m t)
    riskier_waits time (suc n) m lt t =
        let before = repeats-IsTrading time n m (omega (arith, lt)) t in
        rw (answer-await_riskier (time (suc n)) _ before)
          (later_sighting-regime (after_repeats time (suc n) m) lt before)

    -- Trading in a normal regime without a cooldown, the classifier answers a riskier normal
    -- candidate at its sighting number `hysteresis_bars` in a row.
    pub riskier_arrives :
        {count : Option ℕ} (time : ℕ → ℕ) (n : ℕ) (m : Memory)
        → suc (suc n) ≡ bars
        → IsTrading none count m
        → (answer (time (suc n)) (after_repeats time (suc n) m)).regime ≡ candidate
    riskier_arrives time n m e t =
        let before = repeats-IsTrading time n m (omega (arith, e)) t in
        rw (answer-await_riskier (time (suc n)) _ before)
          (last_sighting-regime (after_repeats time (suc n) m) (omega (arith, e)) before)
