-- ===== src/Throttle/Buckets/Evict.antt =====
-- Who loses a bucket of a full table.
use japlusproxy.Prelude.{
  ℕ, suc, ◌<◌, ◌≡◌, ◌≢◌, ◌⊎◌, inl, inr, refl, ap, ◌∙◌, true, false, none, some, List, [], ◌∷◌, ◌++◌,
  arith, length, get_or, ◌==◌, ==_iff, Bool-cases,
}
use japlusproxy.Prelude.Int.{ℤ, ltb_ℤ}
use japlusproxy.Throttle.RateLimit.{Meter, rate_limit}
use japlusproxy.Throttle.Buckets.{Bucket, empty_bucket, empty_meter, Slot, victim, scan, charge}
use japlusproxy.Throttle.Buckets.Lookup.{
  Others, SplitsAt, IsOldest, Ends, at_own, at_free, at_full, at_nothing, get_or-at,
  bucket_for-Ends,
}
use japlusproxy.Throttle.Buckets.Meters.{Packed, meter_of, holding, split_at}
use japlusproxy.Throttle.Buckets.Charge.{charge_at, claimed}

Others-at :
    (ipi : ℕ) (before after : List Bucket) (b : Bucket)
    → Others ipi (before ++ b ∷ after)
    → (b.used ≡ true) × ((b.ipi == ipi) ≡ false)
Others-at ipi [] after b o = (o.0, o.1)
Others-at ipi (x ∷ before) after b o = Others-at ipi before after b o.2

Others-Packed : (ipi : ℕ) (t : List Bucket) → Others ipi t → Packed t
Others-Packed ipi [] o = tt
Others-Packed ipi (b ∷ t) o = inl (o.0, Others-Packed ipi t o.2)

-- A sender's meter stands in some bucket.
pub meter_of-slot :
    (q : ℕ) (t : List Bucket) (m : Meter)
    → meter_of q t ≡ some m
    → (j : ℕ) × (j < length t) × ((get_or t j empty_bucket).meter ≡ m)
unfolding meter_of
meter_of-slot q [] m h = cc
meter_of-slot q (b ∷ t) m h = elim (Bool-cases b.used) [
  | inr free ↦ cc (rw free at h)
  | inl used ↦ elim (Bool-cases (b.ipi == q)) [
    | inl own ↦ (0, omega arith, let e : b.meter ≡ m = ground arith in e)
    | inr other ↦
        let (j, fits, e) = meter_of-slot q t m (rw (used, other) at h) in (suc j, omega arith, e)
  ]
]

-- Where a bucket is given to another, a sender keeps its meter, or it stood in that bucket.
kept_or_own :
    (q ipi : ℕ) (before after : List Bucket) (b : Bucket) (m n : Meter)
    → Others ipi (before ++ b ∷ after)
    → (ipi == q) ≡ false
    → meter_of q (before ++ b ∷ after) ≡ some m
    → (meter_of q (before ++ holding ipi n ∷ after) ≡ some m) ⊎ (b.meter ≡ m)
unfolding meter_of
kept_or_own q ipi [] after b m n o ne h = elim (Bool-cases (b.ipi == q)) [
  | inl own ↦ inr (ground (arith, o.0))
  | inr other ↦ inl (rw ne (rw (o.0, other) at h))
]
kept_or_own q ipi (x ∷ before) after b m n o ne h = elim (Bool-cases (x.ipi == q)) [
  | inl own ↦ inl (rw (o.0, own) (rw (o.0, own) at h))
  | inr other ↦ rw (o.0, other) (kept_or_own q ipi before after b m n o.2 ne (rw (o.0, other) at h))
]

module _ (t : List Bucket) (ipi : ℕ) (mb p now : ℤ) (full : Others ipi t) (q q' : ℕ) (m m' : Meter)
    (ne : (ipi == q) ≡ false) (mine : meter_of q t ≡ some m) (other : meter_of q' t ≡ some m')
    (older_one : ltb_ℤ m'.last_time m.last_time ≡ true) where
  -- The bucket that goes is not the one of `q`.
  not_oldest : (s : SplitsAt t ipi) → IsOldest t (length t) (length s.before) → s.bucket.meter ≢ m
  not_oldest s oldest e =
      let (j, fits, at_j) = meter_of-slot q' t m' other in
      let victim_is : (get_or t (length s.before) empty_bucket).meter ≡ m =
        ap (λ u. (get_or u (length s.before) empty_bucket).meter) s.splits
        ∙ ap (λ b. b.meter) (get_or-at s.before s.bucket s.after)
        ∙ e in
      let never = oldest.1 j fits in cc (older_one, rw (at_j, victim_is) at never)

  kept_at :
      (s : SplitsAt t ipi)
      → scan t ipi 0 t none ≡ victim (some (length s.before))
      → IsOldest t (length t) (length s.before)
      → meter_of q (charge t ipi mb p now).0 ≡ some m
  kept_at s e oldest =
      let slot = claimed t ipi mb p now (Others-Packed ipi t full) s e in
      let done = charge_at t s.before s.after (holding ipi empty_meter) ipi mb p now slot in
      elim (kept_or_own q ipi s.before s.after s.bucket m (rate_limit empty_meter mb p now).0
        (rw s.splits at full) ne (rw s.splits at mine)) [
          | inl kept ↦ rw done kept
          | inr own ↦ absurd (not_oldest s oldest own)
        ]

  kept_by_slot :
      {s : Slot}
      → Ends t ipi s
      → scan t ipi 0 t none ≡ s
      → meter_of q (charge t ipi mb p now).0 ≡ some m
  kept_by_slot (at_own s used own) e =
      let no = Others-at ipi s.before s.after s.bucket (rw s.splits at full) in
      cc (no.1, (==_iff s.bucket.ipi ipi).1 own)
  kept_by_slot (at_free s free) e =
      let no = Others-at ipi s.before s.after s.bucket (rw s.splits at full) in cc (no.0, free)
  kept_by_slot (at_full v o oldest) e =
      let (s, at_v) = split_at ipi v t o oldest.0 in kept_at s (rw at_v e) (rw at_v oldest)
  kept_by_slot (at_nothing nil) e =
      let (j, fits, _) = meter_of-slot q t m mine in absurd (omega (arith, ap length nil))

  -- In a table full of other senders, the packet of a newcomer leaves the meter of a sender as it was
  -- if that of another has an older time.
  pub charge_keeps_newer : meter_of q (charge t ipi mb p now).0 ≡ some m
  charge_keeps_newer = kept_by_slot (bucket_for-Ends t ipi) refl
