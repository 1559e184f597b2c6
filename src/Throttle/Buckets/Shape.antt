-- ===== src/Throttle/Buckets/Shape.antt =====
-- The one bucket of the table that a packet changes.
use japlusproxy.Prelude.{
  ℕ, ◌<◌, ◌≡◌, ◌⊎◌, inl, inr, refl, ap, ◌∙◌, true, false, none, some, List, ◌∷◌, ◌++◌, arith,
  length, get_or,
}
use japlusproxy.Prelude.Int.{ℤ, ltb_ℤ}
use japlusproxy.Throttle.RateLimit.{Meter, rate_limit}
use japlusproxy.Throttle.Buckets.{
  Bucket, empty_bucket, empty_meter, Slot, found, victim, scan, bucket_for, charge,
}
use japlusproxy.Throttle.Buckets.Lookup.{
  Others, SplitsAt, IsOldest, Ends, at_own, at_free, at_full, at_nothing, get_or-at,
  bucket_for-Ends,
}
use japlusproxy.Throttle.Buckets.Meters.{
  AllFree, AllFree-after, Packed, meter_of, meter_of-Others, meter_of-holding, Others-none,
  start_of, holding, holding_own, split_at,
}
use japlusproxy.Throttle.Buckets.Charge.{charge_at, claimed}
use japlusproxy.Throttle.Buckets.Evict.{meter_of-slot}

-- No used bucket of the table is older than a meter.
abbrev pub NoneOlder : List Bucket → Meter → Type 0
NoneOlder t m = (q : ℕ) (x : Meter) → meter_of q t ≡ some x → ltb_ℤ x.last_time m.last_time ≡ false

-- Whose bucket it was: the sender's, nobody's, or the oldest one of a table full of others.
abbrev pub IsChosen : List Bucket → ℕ → Bucket → List Bucket → Type 0
IsChosen t ipi b after =
    ((b.used ≡ true) × (b.ipi ≡ ipi))
    ⊎ (((b.used ≡ false) × AllFree after) ⊎ (Others ipi t × NoneOlder t b.meter))

pub record Changed (t : List Bucket) (ipi : ℕ) (mb p now : ℤ) : Type 0 where
  pub before : List Bucket
  pub bucket : Bucket
  pub after : List Bucket
  pub splits : t ≡ before ++ bucket ∷ after
  pub others : Others ipi before
  pub left :
      (charge t ipi mb p now).0
      ≡ before ++ holding ipi (rate_limit (start_of (meter_of ipi t)) mb p now).0 ∷ after
  pub chosen : IsChosen t ipi bucket after

module _ (t : List Bucket) (ipi : ℕ) (mb p now : ℤ) (packed : Packed t) where
  Changed-own :
      (s : SplitsAt t ipi)
      → s.bucket.used ≡ true
      → s.bucket.ipi ≡ ipi
      → scan t ipi 0 t none ≡ found (length s.before)
      → Changed t ipi mb p now
  Changed-own s u i e =
      let kept = holding_own s.bucket ipi u i in
      let here : t ≡ s.before ++ holding ipi s.bucket.meter ∷ s.after =
        s.splits ∙ ap (λ x. s.before ++ x ∷ s.after) kept in
      let slot : bucket_for t ipi
          ≡ (s.before ++ holding ipi s.bucket.meter ∷ s.after, length s.before) =
        unfold bucket_for in rw e (ap (λ x. (x, length s.before)) here) in
      let same : meter_of ipi t ≡ some s.bucket.meter =
        ap (meter_of ipi) here ∙ meter_of-holding ipi s.before s.after s.bucket.meter s.others in
      record {
        before = s.before;
        bucket = s.bucket;
        after = s.after;
        splits = s.splits;
        others = s.others;
        left =
            ap (λ r. r.0)
              (charge_at t s.before s.after (holding ipi s.bucket.meter) ipi mb p now slot)
            ∙ rw same refl;
        chosen = inl (u, i);
      }

  Changed-claimed :
      (s : SplitsAt t ipi)
      → meter_of ipi t ≡ none
      → scan t ipi 0 t none ≡ victim (some (length s.before))
      → IsChosen t ipi s.bucket s.after
      → Changed t ipi mb p now
  Changed-claimed s none_of e chosen = record {
    before = s.before;
    bucket = s.bucket;
    after = s.after;
    splits = s.splits;
    others = s.others;
    left =
        ap (λ r. r.0)
          (charge_at t s.before s.after (holding ipi empty_meter) ipi mb p now
            (claimed t ipi mb p now packed s e))
        ∙ rw none_of refl;
    chosen = chosen;
  }

  oldest-NoneOlder :
      (s : SplitsAt t ipi) → IsOldest t (length t) (length s.before) → NoneOlder t s.bucket.meter
  oldest-NoneOlder s oldest q x h =
      let (j, fits, at_j) = meter_of-slot q t x h in
      let victim_is : (get_or t (length s.before) empty_bucket).meter ≡ s.bucket.meter =
        ap (λ u. (get_or u (length s.before) empty_bucket).meter) s.splits
        ∙ ap (λ b. b.meter) (get_or-at s.before s.bucket s.after) in
      let never = oldest.1 j fits in rw (at_j, victim_is) at never

  Changed-Ends :
      {s : Slot} → Ends t ipi s → scan t ipi 0 t none ≡ s → 0 < length t → Changed t ipi mb p now
  Changed-Ends (at_own s u i) e h = Changed-own s u i e
  Changed-Ends (at_free s u) e h =
      let nothing : meter_of ipi t ≡ none =
        ap (meter_of ipi) s.splits
        ∙ meter_of-Others ipi s.before _ s.others
        ∙ unfold meter_of in rw u in
      Changed-claimed s nothing e (
        inr
          (inl (u, AllFree-after ipi s.before s.after s.bucket s.others u (rw s.splits at packed))))
  Changed-Ends (at_full v o oldest) e h =
      let (s, at_v) = split_at ipi v t o oldest.0 in
      Changed-claimed s (Others-none ipi t o) (rw at_v e)
        (inr (inr (o, oldest-NoneOlder s (rw at_v oldest))))
  Changed-Ends (at_nothing nil) e h = absurd (omega (arith, ap length nil))

  pub charge-Changed : 0 < length t → Changed t ipi mb p now
  charge-Changed h = Changed-Ends (bucket_for-Ends t ipi) refl h
