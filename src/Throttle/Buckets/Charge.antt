-- ===== src/Throttle/Buckets/Charge.antt =====
-- What one packet does to the table of buckets.
use japlusproxy.Prelude.{
  ℕ, ◌<◌, ◌≡◌, refl, ap, ◌∙◌, true, none, some, List, ◌∷◌, ◌++◌, arith, length, length-append, set,
}
use japlusproxy.Prelude.Int.{ℤ}
use japlusproxy.Throttle.RateLimit.{Meter, rate_limit}
use japlusproxy.Throttle.Buckets.{
  Bucket, empty_meter, Slot, found, victim, scan, fresh, bucket_for, charge,
}
use japlusproxy.Throttle.Buckets.Lookup.{
  Others, SplitsAt, Ends, at_own, at_free, at_full, at_nothing, get_or-at, set-at, bucket_for-Ends,
}
use japlusproxy.Throttle.Buckets.Meters.{
  Others-none, Packed, Packed-holding, holding, holding_own, meter_of, meter_of-Others,
  meter_of-holding, split_at, start_of,
}

pub charge_at :
    (t before after : List Bucket) (b : Bucket) (ipi : ℕ) (mb p now : ℤ)
    → bucket_for t ipi ≡ (before ++ b ∷ after, length before)
    → charge t ipi mb p now ≡ (
      before ++ record b { meter = (rate_limit b.meter mb p now).0 } ∷ after,
      (rate_limit b.meter mb p now).1,
    )
unfolding charge
charge_at t before after b ipi mb p now e = rw e (rw (get_or-at before b after) (rw set-at))

-- What one packet of `ipi` does to the table `t`.
pub record Charged (t : List Bucket) (ipi : ℕ) (mb p now : ℤ) : Type 0 where
  pub own :
      meter_of ipi (charge t ipi mb p now).0
      ≡ some (rate_limit (start_of (meter_of ipi t)) mb p now).0
  pub answer : (charge t ipi mb p now).1 ≡ (rate_limit (start_of (meter_of ipi t)) mb p now).1
  pub packed : Packed (charge t ipi mb p now).0
  pub same_length : length (charge t ipi mb p now).0 ≡ length t

module _ (t : List Bucket) (ipi : ℕ) (mb p now : ℤ) (packed : Packed t) where
  -- From the slot that the sender is given to the table afterwards.
  Charged-at :
      (before after : List Bucket) (b : Bucket) (start : Meter)
      → t ≡ before ++ b ∷ after
      → Others ipi before
      → bucket_for t ipi ≡ (before ++ holding ipi start ∷ after, length before)
      → start ≡ start_of (meter_of ipi t)
      → Charged t ipi mb p now
  Charged-at before after b start e o slot s =
      let done = charge_at t before after (holding ipi start) ipi mb p now slot in
      record {
        own = rw (done, ← s) (meter_of-holding ipi before after _ o);
        answer = rw (done, ← s);
        packed = rw done (Packed-holding ipi ipi before after b _ o (rw e at packed));
        same_length = rw (done, e, length-append, length-append);
      }

  Charged-own :
      (s : SplitsAt t ipi)
      → s.bucket.used ≡ true
      → s.bucket.ipi ≡ ipi
      → scan t ipi 0 t none ≡ found (length s.before)
      → Charged t ipi mb p now
  Charged-own s u i e =
      let kept = holding_own s.bucket ipi u i in
      let here : t ≡ s.before ++ holding ipi s.bucket.meter ∷ s.after =
        s.splits ∙ ap (λ x. s.before ++ x ∷ s.after) kept in
      Charged-at s.before s.after s.bucket s.bucket.meter s.splits s.others
        (unfold bucket_for in rw e (ap (λ x. (x, length s.before)) here))
        (let same : meter_of ipi t ≡ some s.bucket.meter =
            ap (meter_of ipi) here
            ∙ meter_of-holding ipi s.before s.after s.bucket.meter s.others in
          rw same)

  pub claimed :
      (s : SplitsAt t ipi)
      → scan t ipi 0 t none ≡ victim (some (length s.before))
      → bucket_for t ipi ≡ (s.before ++ fresh ipi ∷ s.after, length s.before)
  unfolding bucket_for
  claimed s e = rw e (
      ap (λ x. (x, length s.before))
        (ap (λ x. set x (length s.before) (fresh ipi)) s.splits
          ∙ set-at s.before s.bucket (fresh ipi) s.after))

  Charged-new :
      (s : SplitsAt t ipi)
      → meter_of ipi t ≡ none
      → scan t ipi 0 t none ≡ victim (some (length s.before))
      → Charged t ipi mb p now
  Charged-new s nothing e =
      Charged-at s.before s.after s.bucket empty_meter s.splits s.others (claimed s e) (rw nothing)

  Charged-Ends :
      {s : Slot} → Ends t ipi s → scan t ipi 0 t none ≡ s → 0 < length t → Charged t ipi mb p now
  Charged-Ends (at_own s u i) e h = Charged-own s u i e
  Charged-Ends (at_free s u) e h =
      Charged-new s
        (ap (meter_of ipi) s.splits
          ∙ meter_of-Others ipi s.before _ s.others
          ∙ unfold meter_of in rw u)
        e
  Charged-Ends (at_full v o oldest) e h =
      let (s, at) = split_at ipi v t o oldest.0 in Charged-new s (Others-none ipi t o) (rw at e)
  Charged-Ends (at_nothing nil) e h = absurd (let none_left : length t ≡ 0 = rw nil in omega arith)

  -- In a table that is not empty and whose used buckets stand in front, a packet gets the answer
  -- of its sender's meter, or of an empty one if the table has none, and that meter is charged. The
  -- used buckets still stand in front, and the table keeps its length.
  pub charge-Charged : 0 < length t → Charged t ipi mb p now
  charge-Charged h = Charged-Ends (bucket_for-Ends t ipi) refl h
