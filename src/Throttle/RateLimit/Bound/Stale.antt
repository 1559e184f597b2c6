-- ===== src/Throttle/RateLimit/Bound/Stale.antt =====
-- A bucket that has not been charged for long is as good as a new one.
use native.Mathlib.Nat.{le-div_iff_mul-le}
use japlusproxy.Prelude.{ℕ, ◌+◌, ◌-◌, ◌*◌, ◌/◌, ◌^◌, ◌≤◌, ◌<◌, ◌≡◌, sym, ◌∙◌, lt→ltb, arith}
use japlusproxy.Prelude.Int.{pos}
use japlusproxy.Throttle.RateLimit.{rate_limit}
use japlusproxy.Throttle.RateLimit.Bound.{meter, leak_ℕ, fill_ℕ, fill-fill_ℕ, rate_limit-leak_ℕ}

module _ (mb p at : ℕ) (some_period : 0 < p) (some_burst : 0 < mb) (small : mb < 2 ^ 31)
    (fits : at < 2 ^ 31) where
  -- All of the burst has leaked out after one period more than it.
  restarted :
      (b l : ℕ)
      → b ≤ mb
      → l + (mb + 1) * p ≤ at
      → rate_limit (meter b l) (pos mb) (pos p) (pos at) ≡ fill_ℕ 0 at mb
  unfolding leak_ℕ
  restarted b l capped old =
      let periods : mb + 1 ≤ (at - l) / p = (le-div_iff_mul-le some_period).1 (omega arith) in
      let empty = lt→ltb b ((at - l) / p) (omega (arith, periods)) in
      rate_limit-leak_ℕ b l mb p at some_period some_burst capped small (omega arith) fits
      ∙ rw empty (fill-fill_ℕ 0 at mb small)

  -- A bucket whose last time is at least a period more than the burst behind is charged like one
  -- that has never been used.
  pub rate_limit-stale :
      (b l : ℕ)
      → b ≤ mb
      → l + (mb + 1) * p ≤ at
      → rate_limit (meter b l) (pos mb) (pos p) (pos at)
        ≡ rate_limit (meter 0 0) (pos mb) (pos p) (pos at)
  rate_limit-stale b l capped old =
      restarted b l capped old ∙ sym (restarted 0 0 (omega arith) (omega arith))
