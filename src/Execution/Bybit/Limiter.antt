-- ===== src/Execution/Bybit/Limiter.antt =====
-- app/execution/rate_limiter.py: a bucket of tokens that fills with time.
use one_year_billion.Common.{Bool, true, false, if◌then◌else◌}
use one_year_billion.Common.Float.{Float, ◌<?◌, ◌⊕◌, ◌⊖◌, ◌⊗◌, nought, py_max, py_min}

pub record TokenBucket (W : Type 0) : Type 0 where
  pub rate_per_second : W
  -- `float(self.burst)`
  pub burst : W
  pub tokens : W
  pub updated_at : W

module _ {W : Type 0} ⦃f : Float W⦄ where
  abbrev pub refill : W → TokenBucket W → TokenBucket W
  refill now b =
      let elapsed = py_max (now ⊖ b.updated_at) nought in
      record b {
        tokens = py_min b.burst (b.tokens ⊕ elapsed ⊗ b.rate_per_second);
        updated_at = now;
      }

  -- `now` is `time.monotonic()`
  unfoldable pub allow : W → TokenBucket W → Bool × TokenBucket W
  allow now b =
      let filled = refill now b in
      if filled.tokens <? f.lit 1 0
      then (false, filled)
      else (true, record filled { tokens = filled.tokens ⊖ f.lit 1 0 })
