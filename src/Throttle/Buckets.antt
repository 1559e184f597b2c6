-- ===== src/Throttle/Buckets.antt =====
-- The tables of buckets of proxy/patch.c: oob_bucket_t, BucketFor, and the two uses of it, which
-- charge a packet to the bucket of its sender. A table is a list; its length is the `n` of
-- BucketFor, and a pointer into it is an index.
pub mod Lookup
pub mod Meters
pub mod Charge
pub mod Evict
pub mod Shape
pub mod Distinct
pub mod Full
pub mod Calm
pub mod View
pub mod Range
use japlusproxy.Prelude.{
  ℕ, zero, suc, ◌+◌, Bool, true, false, Option, none, some, List, [], ◌∷◌, get_or, set, ◌==◌,
  if◌then◌else◌,
}
use japlusproxy.Prelude.Int.{ℤ, pos, ltb_ℤ}
use japlusproxy.Throttle.RateLimit.{Meter, rate_limit}

-- `ipi` is the IPv4 address as a little-endian word.
pub record Bucket : Type 0 where
  pub ipi : ℕ
  pub meter : Meter
  pub used : Bool

-- memset(…, 0, sizeof(oob_bucket_t))
abbrev pub empty_meter : Meter
empty_meter = record { burst = pos 0; last_time = pos 0 }

abbrev pub empty_bucket : Bucket
empty_bucket = record { ipi = 0; meter = empty_meter; used = false }

-- Where the loop of BucketFor ends: at the sender's bucket, or with a victim (none is -1).
pub data Slot : Type 0 where
  found : ℕ → Slot
  victim : Option ℕ → Slot

abbrev pub older : List Bucket → Bucket → ℕ → Bool
older t b v = ltb_ℤ b.meter.last_time (get_or t v empty_bucket).meter.last_time

-- `if (victim < 0 || t[i].lastTime < t[victim].lastTime) victim = i;`
abbrev pub next_victim : List Bucket → Bucket → ℕ → Option ℕ → Option ℕ
next_victim t b i none = some i
next_victim t b i (some v) = if older t b v then some i else some v

-- The loop from index `i` on, over the buckets that are left.
unfoldable pub scan : List Bucket → ℕ → ℕ → List Bucket → Option ℕ → Slot
scan t ipi i [] v = victim v
scan t ipi i (b ∷ bs) v =
    let rest = scan t ipi (i + 1) bs (next_victim t b i v) in
    if b.used then (if b.ipi == ipi then found i else rest) else victim (some i)

abbrev pub fresh : ℕ → Bucket
fresh ipi = record { ipi = ipi; meter = empty_meter; used = true }

-- The cleared and claimed slot of a sender that has none.
abbrev pub claim : List Bucket → ℕ → Slot → List Bucket × ℕ
claim t ipi (found i) = (t, i)
claim t ipi (victim none) = (set t 0 (fresh ipi), 0)
claim t ipi (victim (some v)) = (set t v (fresh ipi), v)

unfoldable pub bucket_for : List Bucket → ℕ → List Bucket × ℕ
bucket_for t ipi = claim t ipi (scan t ipi 0 t none)

-- `b = BucketFor(…); OOB_RateLimit(&b->burst, &b->lastTime, …)`: the table after it, and whether
-- the packet is over the limit.
unfoldable pub charge : List Bucket → ℕ → ℤ → ℤ → ℤ → List Bucket × Bool
charge t ipi max_burst period now =
    let (t', i) = bucket_for t ipi in
    let b = get_or t' i empty_bucket in
    let (m, over) = rate_limit b.meter max_burst period now in
    (set t' i (record b { meter = m }), over)
