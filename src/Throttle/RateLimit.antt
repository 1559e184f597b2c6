-- ===== src/Throttle/RateLimit.antt =====
-- OOB_RateLimit of proxy/patch.c: the leaky bucket. The two `int` that it updates through pointers
-- are a `Meter`; no caller passes a null pointer.
pub mod Bound
pub mod Run
pub mod Range
use japlusproxy.Prelude.{Bool, true, false, ◌||◌, if◌then◌else◌}
use japlusproxy.Prelude.Int.{ℤ, pos, ◌+ℤ◌, ◌-ℤ◌, leb_ℤ, ltb_ℤ, c_div, c_mod, wrap32}

pub record Meter : Type 0 where
  pub burst : ℤ
  pub last_time : ℤ

-- What has leaked out since the last call is taken off the burst.
pub leak : Meter → ℤ → ℤ → Meter
leak m period now =
    let interval = wrap32 (now -ℤ m.last_time) in
    let expired = c_div interval period in
    if ltb_ℤ m.burst expired || ltb_ℤ interval (pos 0)
    then record { burst = pos 0; last_time = now }
    else record {
      burst = wrap32 (m.burst -ℤ expired);
      last_time = wrap32 (now -ℤ c_mod interval period);
    }

-- The last test of the function: room in the bucket, or over the limit.
pub fill : Meter → ℤ → Meter × Bool
fill m max_burst =
    if ltb_ℤ m.burst max_burst
    then (record m { burst = wrap32 (m.burst +ℤ pos 1) }, false)
    else (m, true)

-- `true` is "over limit, drop".
unfoldable pub rate_limit : Meter → ℤ → ℤ → ℤ → Meter × Bool
unfolding leak fill
rate_limit m max_burst period now =
    if leb_ℤ period (pos 0) || leb_ℤ max_burst (pos 0)
    then (m, false)
    else fill (leak m period now) max_burst
