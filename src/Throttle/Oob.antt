-- ===== src/Throttle/Oob.antt =====
-- Detour_Connless of proxy/patch.c with OOB_ShouldDrop and OOB_RefreshCfg: the guard against floods
-- of connectionless packets. The engine's answers to Proxy_CvarInt are the function `cvar`, and the
-- readings of the clock are arguments.
pub mod Settings
pub mod Flood
pub mod Senders
pub mod Follow
pub mod Shares
pub mod Patient
pub mod Accounts
pub mod Ideal
pub mod Reach
use japlusproxy.Prelude.{
  ℕ, ◌*◌, Bytes, codes, Bool, true, false, not, ◌&&◌, Option, none, some, List, ◌==◌, replicate,
  if◌then◌else◌,
}
use japlusproxy.Prelude.Int.{ℤ, pos, negsuc, ◌-ℤ◌, ltb_ℤ, ◌==ℤ◌, scale, c_div, wrap32}
use japlusproxy.Throttle.RateLimit.{Meter, rate_limit}
use japlusproxy.Throttle.Buckets.{Bucket, empty_meter, empty_bucket, charge}
use japlusproxy.Throttle.Tally.{Tally, count_drop}
use japlusproxy.Throttle.Rcon.{loopback}

-- oob_cfg_ip, oob_cfg_all, oob_cfg_time
pub record Config : Type 0 where
  pub ip : ℤ
  pub all : ℤ
  pub time : ℤ

-- `(v > 0) ? (v > 1000 ? 1000 : v) : fallback`
unfoldable pub limit_of : ℤ → ℤ → ℤ
limit_of v fallback =
    if ltb_ℤ (pos 0) v then (if ltb_ℤ (pos 1000) v then pos 1000 else v) else fallback

unfoldable pub refresh_cfg : (Bytes → ℤ) → ℤ → Config → Config
unfolding limit_of
refresh_cfg cvar now c =
    if not (c.time ==ℤ pos 0) && ltb_ℤ (wrap32 (now -ℤ c.time)) (pos 5000) then c else record {
      ip = limit_of (cvar (codes "sv_maxOOBRateIP")) (pos 1);
      all = limit_of (cvar (codes "sv_maxOOBRate")) (pos 1000);
      time = now;
    }

pub record Oob : Type 0 where
  pub table : List Bucket
  pub global : Meter
  pub config : Config
  pub tally : Tally

abbrev oob_buckets : ℕ
oob_buckets = 256

-- The statics as they are loaded.
abbrev pub oob_init : Oob
oob_init = record {
  table = replicate oob_buckets empty_bucket;
  global = empty_meter;
  config = record { ip = negsuc 0; all = negsuc 0; time = pos 0 };
  tally = record { dropped = pos 0; last_msg = pos 0 };
}

-- The second bucket, shared by all senders; `s` has been charged for the sender already.
global_check : ℤ → Oob → Oob × Bool
global_check now s =
    let (m, over) = rate_limit s.global s.config.all (c_div (pos 1000) s.config.all) now in
    (record s { global = m }, over)

-- The part of OOB_ShouldDrop behind the exemption, with the settings at hand.
sender_check : ℤ → ℕ → Oob → Oob × Bool
unfolding global_check
sender_check now ipi s =
    let (table, over) =
      charge s.table ipi (scale 10 s.config.ip) (c_div (pos 1000) s.config.ip) now in
    let charged = record s { table = table } in
    if over then (charged, true) else global_check now charged

should_drop : (Bytes → ℤ) → ℤ → ℕ → Oob → Oob × Bool
unfolding sender_check
should_drop cvar now ipi s =
    if ipi == loopback
    then (s, false)
    else sender_check now ipi (record s { config = refresh_cfg cvar now s.config })

pub record OobOutcome : Type 0 where
  pub after : Oob
  pub forwarded : Bool
  pub logged : Option ℤ

-- `later` is the second reading of the clock, for the log.
unfoldable pub detour_connless : (Bytes → ℤ) → ℤ → ℤ → ℕ → Oob → OobOutcome
unfolding should_drop
detour_connless cvar now later ipi s =
    let (s', drop) = should_drop cvar now ipi s in
    let (tally, logged) = count_drop s'.tally later in
    if drop
    then record { after = record s' { tally = tally }; forwarded = false; logged = logged }
    else record { after = s'; forwarded = true; logged = none }
