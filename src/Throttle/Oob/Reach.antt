-- ===== src/Throttle/Oob/Reach.antt =====
-- The states that the connectionless detour of proxy/patch.c can be in, for any packets, any clock
-- and any settings of the engine.
use japlusproxy.Prelude.{
  ℕ, ◌≡◌, ◌∙◌, refl, inl, inr, Bytes, Bool, not, ◌&&◌, arith, length, ◌==◌, if-holds,
}
use japlusproxy.Prelude.Int.{ℤ, pos, negsuc, ◌-ℤ◌, ◌≤ℤ◌, ◌==ℤ◌, ltb_ℤ, c_div, scale, wrap32}
use japlusproxy.Throttle.Tally
use japlusproxy.Throttle.Tally.{Tally, count_drop, count_drop-InRange}
use japlusproxy.Throttle.RateLimit.Range
use japlusproxy.Throttle.RateLimit.Range.{IsInt32, rate_limit-InRange}
use japlusproxy.Throttle.Buckets.{charge}
use japlusproxy.Throttle.Buckets.Range.{
  AllInRange, charge-AllInRange, length-charge, replicate-AllInRange,
}
use japlusproxy.Throttle.Rcon.{loopback}
use japlusproxy.Throttle.Oob.{
  Config, Oob, OobOutcome, oob_init, refresh_cfg, global_check, sender_check, should_drop,
  detour_connless,
}
use japlusproxy.Throttle.Oob.Settings.{IsLimit, IsSane, refresh_cfg-IsLimit}

pub data Reachable : Oob → Type 0 where
  start : Reachable oob_init
  packet :
      (cvar : Bytes → ℤ) (now later : ℤ) (ipi : ℕ) (s : Oob)
      → IsInt32 now
      → IsInt32 later
      → Reachable s
      → Reachable (detour_connless cvar now later ipi s).after

-- 256 buckets with a burst from 0 to 10000, the common one with a burst from 0 to 1000, limits that
-- are from 1 to 1000 once they are loaded, and an `int` in every place.
pub record IsWell (s : Oob) : Type 0 where
  size : length s.table ≡ 256
  table : AllInRange 10000 s.table
  global : Range.InRange 1000 s.global
  config : IsSane s.config
  loaded_at : IsInt32 s.config.time
  tally : Tally.InRange s.tally

refresh_cfg-time :
    (cvar : Bytes → ℤ) (now : ℤ) (c : Config)
    → IsInt32 now
    → IsInt32 c.time
    → IsInt32 (refresh_cfg cvar now c).time
unfolding refresh_cfg
refresh_cfg-time cvar now c int h =
    if-holds (λ (c' : Config). IsInt32 c'.time)
      (not (c.time ==ℤ pos 0) && ltb_ℤ (wrap32 (now -ℤ c.time)) (pos 5000)) (λ _. h) (λ _. int)

burst_fits : (v : ℤ) → IsLimit v → scale 10 v ≤ℤ pos 10000
burst_fits (pos n) h = omega (arith, h)
burst_fits (negsuc n) h = absurd (omega (arith, h))

module _ (now : ℤ) (int : IsInt32 now) (s : Oob) (h : IsWell s) (all : IsLimit s.config.all) where
  global_check-IsWell : IsWell (global_check now s).0
  unfolding global_check
  global_check-IsWell = record {
    size = h.size;
    table = h.table;
    global =
        rate_limit-InRange 1000 s.global s.config.all (c_div (pos 1000) s.config.all) now
          (omega arith) h.global all.1 int;
    config = h.config;
    loaded_at = h.loaded_at;
    tally = h.tally;
  }

sender_check-IsWell :
    (now : ℤ) (int : IsInt32 now) (ipi : ℕ) (s : Oob)
    → IsWell s
    → IsLimit s.config.ip
    → IsLimit s.config.all
    → IsWell (sender_check now ipi s).0
unfolding sender_check
sender_check-IsWell now int ipi s h ip all =
    let burst = scale 10 s.config.ip in
    let period = c_div (pos 1000) s.config.ip in
    let r = charge s.table ipi burst period now in
    let charged : IsWell (record s { table = r.0 }) = record {
      size = length-charge s.table ipi burst period now ∙ h.size;
      table =
          charge-AllInRange 10000 s.table ipi burst period now (omega arith) h.table
            (burst_fits s.config.ip ip) int;
      global = h.global;
      config = h.config;
      loaded_at = h.loaded_at;
      tally = h.tally;
    } in
    if-holds (λ (q : Oob × Bool). IsWell q.0) r.1 (λ _. charged)
      (λ _. global_check-IsWell now int (record s { table = r.0 }) charged all)

should_drop-IsWell :
    (cvar : Bytes → ℤ) (now : ℤ) (int : IsInt32 now) (ipi : ℕ) (s : Oob)
    → IsWell s
    → IsWell (should_drop cvar now ipi s).0
unfolding should_drop
should_drop-IsWell cvar now int ipi s h =
    let limits = refresh_cfg-IsLimit cvar now s.config h.config in
    let c = refresh_cfg cvar now s.config in
    let loaded : IsWell (record s { config = c }) = record {
      size = h.size;
      table = h.table;
      global = h.global;
      config = inr limits;
      loaded_at = refresh_cfg-time cvar now s.config int h.loaded_at;
      tally = h.tally;
    } in
    if-holds (λ (q : Oob × Bool). IsWell q.0) (ipi == loopback) (λ _. h)
      (λ _. sender_check-IsWell now int ipi (record s { config = c }) loaded limits.0 limits.1)

detour_connless-IsWell :
    (cvar : Bytes → ℤ) (now later : ℤ) (ipi : ℕ) (s : Oob)
    → IsInt32 now
    → IsInt32 later
    → IsWell s
    → IsWell (detour_connless cvar now later ipi s).after
unfolding detour_connless
detour_connless-IsWell cvar now later ipi s int later_int h =
    let r = should_drop cvar now ipi s in
    let next = should_drop-IsWell cvar now int ipi s h in
    if-holds (λ (o : OobOutcome). IsWell o.after) r.1
      (λ _. record {
        size = next.size;
        table = next.table;
        global = next.global;
        config = next.config;
        loaded_at = next.loaded_at;
        tally = count_drop-InRange r.0.tally later next.tally later_int;
      })
      (λ _. next)

-- In every state that the connectionless guard can come to from the start of the server, whatever
-- the senders, the readings of the clock and the engine's settings, there are 256 buckets, each with
-- a burst from 0 to 10000, the common burst is from 0 to 1000, the limits are from 1 to 1000 or not
-- loaded yet, and the times and the counts are values of an `int`.
pub Reachable-IsWell : (s : Oob) → Reachable s → IsWell s
Reachable-IsWell _ start = record {
  size = refl;
  table = replicate-AllInRange 10000 256;
  global = record { count = 0; burst = refl; capped = omega arith; time = omega arith };
  config = inl refl;
  loaded_at = omega arith;
  tally = (omega arith, omega arith);
}
Reachable-IsWell _ (packet cvar now later ipi s int later_int r) =
    detour_connless-IsWell cvar now later ipi s int later_int (Reachable-IsWell s r)
