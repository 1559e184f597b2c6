-- ===== src/Throttle/Buckets/Range.antt =====
-- The `int` of a table of buckets stay in range, whatever the clock reads.
use japlusproxy.Prelude.{
  ℕ, ◌^◌, ◌<◌, ◌≡◌, ◌∙◌, refl, zero, suc, none, some, List, [], ◌∷◌, arith, length, length-set,
  get_or, set, replicate,
}
use japlusproxy.Prelude.Int.{ℤ, pos, ◌≤ℤ◌}
use japlusproxy.Throttle.RateLimit.{rate_limit}
use japlusproxy.Throttle.RateLimit.Range.{IsInt32, InRange, rate_limit-InRange}
use japlusproxy.Throttle.Buckets.{
  Bucket, empty_bucket, Slot, found, victim, scan, fresh, claim, bucket_for, charge,
}

abbrev pub AllInRange : ℕ → List Bucket → Type 0
AllInRange cap [] = Unit
AllInRange cap (b ∷ t) = InRange cap b.meter × AllInRange cap t

module _ (cap : ℕ) where
  empty : InRange cap (empty_bucket.meter)
  empty = record { count = 0; burst = refl; capped = omega arith; time = omega arith }

  get_or-InRange :
      (t : List Bucket) (i : ℕ) → AllInRange cap t → InRange cap (get_or t i empty_bucket).meter
  get_or-InRange [] i h = empty
  get_or-InRange (b ∷ t) zero h = h.0
  get_or-InRange (b ∷ t) (suc i) h = get_or-InRange t i h.1

  set-AllInRange :
      (t : List Bucket) (i : ℕ) (b : Bucket)
      → AllInRange cap t
      → InRange cap b.meter
      → AllInRange cap (set t i b)
  set-AllInRange [] i b h hb = tt
  set-AllInRange (x ∷ t) zero b h hb = (hb, h.1)
  set-AllInRange (x ∷ t) (suc i) b h hb = (h.0, set-AllInRange t i b h.1 hb)

  pub replicate-AllInRange : (n : ℕ) → AllInRange cap (replicate n empty_bucket)
  replicate-AllInRange zero = tt
  replicate-AllInRange (suc n) = (empty, replicate-AllInRange n)

  claim-AllInRange :
      (t : List Bucket) (ipi : ℕ) (s : Slot) → AllInRange cap t → AllInRange cap (claim t ipi s).0
  claim-AllInRange t ipi (found i) h = h
  claim-AllInRange t ipi (victim none) h = set-AllInRange t 0 (fresh ipi) h empty
  claim-AllInRange t ipi (victim (some v)) h = set-AllInRange t v (fresh ipi) h empty

  module _ (t : List Bucket) (ipi : ℕ) (mb p now : ℤ) where
    pub charge-AllInRange :
        cap < 2 ^ 31
        → AllInRange cap t
        → mb ≤ℤ pos cap
        → IsInt32 now
        → AllInRange cap (charge t ipi mb p now).0
    unfolding charge bucket_for
    charge-AllInRange small h le int =
        let (t', i) = claim t ipi (scan t ipi 0 t none) in
        let claimed : AllInRange cap t' = claim-AllInRange t ipi (scan t ipi 0 t none) h in
        let b = get_or t' i empty_bucket in
        set-AllInRange t' i (record b { meter = (rate_limit b.meter mb p now).0 }) claimed
          (rate_limit-InRange cap b.meter mb p now small (get_or-InRange t' i claimed) le int)

length-claim : (t : List Bucket) (ipi : ℕ) (s : Slot) → length (claim t ipi s).0 ≡ length t
length-claim t ipi (found i) = refl
length-claim t ipi (victim none) = length-set t 0 (fresh ipi)
length-claim t ipi (victim (some v)) = length-set t v (fresh ipi)

pub length-charge :
    (t : List Bucket) (ipi : ℕ) (mb p now : ℤ) → length (charge t ipi mb p now).0 ≡ length t
unfolding charge bucket_for
length-charge t ipi mb p now =
    let (t', i) = claim t ipi (scan t ipi 0 t none) in
    let b = get_or t' i empty_bucket in
    length-set t' i (record b { meter = (rate_limit b.meter mb p now).0 })
    ∙ length-claim t ipi (scan t ipi 0 t none)
