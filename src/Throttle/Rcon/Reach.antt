-- ===== src/Throttle/Rcon/Reach.antt =====
-- The states that the rcon detour of proxy/patch.c can be in, for any packets and any clock.
use japlusproxy.Prelude.{ℕ, ◌≡◌, ◌∙◌, refl, arith, length, ◌==◌, if-holds}
use japlusproxy.Prelude.Int.{ℤ}
use japlusproxy.Throttle.Tally
use japlusproxy.Throttle.Tally.{Tally, count_drop, count_drop-InRange}
use japlusproxy.Throttle.RateLimit.Range.{IsInt32}
use japlusproxy.Throttle.Buckets.{charge}
use japlusproxy.Throttle.Buckets.Range.{
  AllInRange, charge-AllInRange, length-charge, replicate-AllInRange,
}
use japlusproxy.Throttle.Rcon.{
  Rcon, RconOutcome, rcon_init, loopback, rcon_burst, rcon_period, rcon_attempt, detour_rcon,
}

pub data Reachable : Rcon → Type 0 where
  start : Reachable rcon_init
  attempt :
      (ipi : ℕ) (now : ℤ) (s : Rcon)
      → IsInt32 now
      → Reachable s
      → Reachable (detour_rcon ipi now s).after

-- 64 buckets with a burst from 0 to 5, and an `int` in every place.
pub record IsWell (s : Rcon) : Type 0 where
  size : length s.table ≡ 64
  table : AllInRange 5 s.table
  tally : Tally.InRange s.tally

detour_rcon-IsWell :
    (ipi : ℕ) (now : ℤ) (s : Rcon) → IsInt32 now → IsWell s → IsWell (detour_rcon ipi now s).after
unfolding detour_rcon rcon_attempt
detour_rcon-IsWell ipi now s int h =
    let left : AllInRange 5 (charge s.table ipi rcon_burst rcon_period now).0 =
      charge-AllInRange 5 s.table ipi rcon_burst rcon_period now (omega arith) h.table (omega arith)
        int in
    let size = length-charge s.table ipi rcon_burst rcon_period now ∙ h.size in
    if-holds (λ (r : RconOutcome). IsWell r.after) (ipi == loopback) (λ _. h)
      (λ _.
        if-holds (λ (r : RconOutcome). IsWell r.after)
          (charge s.table ipi rcon_burst rcon_period now).1
          (λ _. record {
            size = size;
            table = left;
            tally = count_drop-InRange s.tally now h.tally int;
          })
          (λ _. record { size = size; table = left; tally = h.tally }))

-- In every state that the rcon guard can come to from the start of the server, whatever the senders
-- and the readings of the clock, there are 64 buckets, each burst is from 0 to 5, and the times and
-- the counts are values of an `int`.
pub Reachable-rcon_IsWell : (s : Rcon) → Reachable s → IsWell s
Reachable-rcon_IsWell _ start = record {
  size = refl;
  table = replicate-AllInRange 5 64;
  tally = (omega arith, omega arith);
}
Reachable-rcon_IsWell _ (attempt ipi now s int r) =
    detour_rcon-IsWell ipi now s int (Reachable-rcon_IsWell s r)
