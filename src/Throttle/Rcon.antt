-- ===== src/Throttle/Rcon.antt =====
-- Detour_Rcon of proxy/patch.c, with OOB_NowMs. The clock, the sender's address and the message are
-- inputs; that the engine's handler is called is `forwarded`, and the count that a line of the log
-- reports is `logged`.
pub mod Senders
pub mod Follow
pub mod Guesses
pub mod Accounts
pub mod Ideal
pub mod Reach
use japlusproxy.Prelude.{
  ℕ, ◌+◌, ◌*◌, ◌/◌, Bool, true, false, Option, none, some, List, ◌==◌, replicate, if◌then◌else◌,
}
use japlusproxy.Prelude.Int.{ℤ, pos, ◌+ℤ◌, ltb_ℤ, wrap32}
use japlusproxy.Throttle.Tally.{Tally, count_drop}
use japlusproxy.Throttle.Buckets.{Bucket, empty_bucket, charge}

-- OOB_NowMs: seconds and nanoseconds of the monotonic clock, or none where it cannot be read. A
-- `long` has 32 bits on i386.
now_ms : Option (ℕ × ℕ) → ℤ
now_ms none = pos 0
now_ms (some (sec, nsec)) = wrap32 (pos (sec * 1000 + nsec / 1000000))

-- 127.0.0.1
abbrev pub loopback : ℕ
loopback = 0x0100007F

abbrev rcon_buckets : ℕ
rcon_buckets = 64

abbrev pub rcon_burst : ℤ
rcon_burst = pos 5

abbrev pub rcon_period : ℤ
rcon_period = pos 2000

pub record Rcon : Type 0 where
  pub table : List Bucket
  pub tally : Tally

-- The statics as they are loaded.
abbrev pub rcon_init : Rcon
rcon_init = record {
  table = replicate rcon_buckets empty_bucket;
  tally = record { dropped = pos 0; last_msg = pos 0 };
}

pub record RconOutcome : Type 0 where
  pub after : Rcon
  pub forwarded : Bool
  pub logged : Option ℤ

-- The branch of a sender that is not exempt.
rcon_attempt : ℕ → ℤ → Rcon → RconOutcome
rcon_attempt ipi now s =
    let (table, over) = charge s.table ipi rcon_burst rcon_period now in
    let (tally, logged) = count_drop s.tally now in
    if over
    then record {
      after = record { table = table; tally = tally };
      forwarded = false;
      logged = logged;
    }
    else record { after = record s { table = table }; forwarded = true; logged = none }

unfoldable pub detour_rcon : ℕ → ℤ → Rcon → RconOutcome
unfolding rcon_attempt
detour_rcon ipi now s =
    if ipi == loopback
    then record { after = s; forwarded = true; logged = none }
    else rcon_attempt ipi now s
