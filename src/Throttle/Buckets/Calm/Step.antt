-- ===== src/Throttle/Buckets/Calm/Step.antt =====
-- One packet of a sender, where few have sent of late.
use native.Mathlib.Decide.{dec_lt}
use japlusproxy.Prelude.{
  ℕ, ◌+◌, ◌^◌, ◌<◌, ◌≤◌, ◌≡◌, inl, inr, refl, sym, ap, ◌∙◌, true, false, some, List, ◌∷◌, arith,
  length, ◌==◌, ==_iff, Bool-cases,
}
use japlusproxy.Prelude.Int.{pos, ltb_ℤ}
use japlusproxy.Throttle.RateLimit.{Meter, rate_limit}
use japlusproxy.Throttle.RateLimit.Bound.{step_facts}
use japlusproxy.Throttle.Crowd.Recent.{
  insert, Past, recent_of, Tried-recent_of, Listed-insert_self, Listed-insert_other,
}
use japlusproxy.Throttle.Buckets.{Bucket, charge}
use japlusproxy.Throttle.Buckets.Lookup.{Others}
use japlusproxy.Throttle.Buckets.Meters.{meter_of, start_of}
use japlusproxy.Throttle.Buckets.Charge.{Charged, charge-Charged}
use japlusproxy.Throttle.Buckets.Shape.{NoneOlder, Changed, charge-Changed}
use japlusproxy.Throttle.Buckets.Distinct.{Kept, Kept-charge, Distinct-charge}
use japlusproxy.Throttle.Buckets.Full.{AllHeld, length-newcomer}
use japlusproxy.Throttle.Buckets.View.{Meters, ideal_charge}
use japlusproxy.Throttle.Buckets.Calm.{
  span_of, IsHeld, Tracks, Follows, StartsAs, Tracks-StartsAs, Tracks-later,
}

not_older : (a b : ℕ) → ltb_ℤ (pos a) (pos b) ≡ false → b ≤ a
not_older a b h = ground arith

module _ (n mb p : ℕ) (some_slot : 0 < n) (some_burst : 0 < mb) (small : mb < 2 ^ 31)
    (some_period : 0 < p) (past : Past) (now : ℕ) (t : List Bucket) (m : Meters)
    (f : Follows n mb p past now t m) (ipi at : ℕ) (after : now ≤ at) (fits : at < 2 ^ 31) where
  abbrev charged : Charged t ipi (pos mb) (pos p) (pos at)
  charged = charge-Charged t ipi (pos mb) (pos p) (pos at) f.packed (rw f.size some_slot)

  changed : Changed t ipi (pos mb) (pos p) (pos at)
  changed = charge-Changed t ipi (pos mb) (pos p) (pos at) f.packed (rw f.size some_slot)

  abbrev left : List Bucket
  left = (charge t ipi (pos mb) (pos p) (pos at)).0

  StartsAs-own : StartsAs mb p now at (start_of (meter_of ipi t)) (m ipi)
  StartsAs-own =
      Tracks-StartsAs n mb p some_slot some_burst small some_period past now ipi at (meter_of ipi t)
        (m ipi) after fits (f.tracks ipi)

  -- The packet gets the answer of its sender's meter.
  pub Follows-answer :
      (charge t ipi (pos mb) (pos p) (pos at)).1 ≡ (ideal_charge m ipi (pos mb) (pos p) (pos at)).1
  unfolding ideal_charge
  Follows-answer = charged.answer ∙ ap (λ r. r.1) StartsAs-own.agrees

  IsHeld-own :
      IsHeld mb
        ((ipi, at) ∷ past)
        at
        ipi
        (rate_limit (start_of (meter_of ipi t)) (pos mb) (pos p) (pos at)).0
        (rate_limit (m ipi) (pos mb) (pos p) (pos at)).0
  IsHeld-own =
      let s = StartsAs-own in
      let facts =
        step_facts s.burst s.last mb p at some_period some_burst s.capped small
          (omega (arith, s.past_now)) fits in
      record {
        same = ap (λ r. r.0) s.agrees;
        burst = facts.burst';
        last = facts.last';
        regular = rw s.regular (ap (λ r. r.0) facts.result);
        capped = facts.capped;
        seen_at = at;
        tried = inl (refl, refl);
        not_later = facts.not_later;
        passed = omega arith;
      }

  Tracks-own :
      (q : ℕ)
      → (ipi == q) ≡ true
      → Tracks mb p
          ((ipi, at) ∷ past)
          at
          q
          (meter_of q left)
          ((ideal_charge m ipi (pos mb) (pos p) (pos at)).0 q)
  unfolding ideal_charge
  Tracks-own q own = rw own (rw (← (==_iff ipi q).0 own) (rw charged.own IsHeld-own))

  abbrev senders : List ℕ
  senders = insert ipi (recent_of (span_of mb p) at past)

  module _ (few : length (insert ipi (recent_of (span_of mb p) at past)) ≤ n) where
    -- If the oldest bucket of the table were recent, all its senders and one more would be.
    AllHeld-recent :
        (q : ℕ) (x : Meter)
        → meter_of q t ≡ some x
        → NoneOlder t x
        → (h : IsHeld mb past now q x (m q)) → at < h.last + span_of mb p
        → AllHeld senders t
    AllHeld-recent q x e oldest h young q' x' e' =
        let h' : IsHeld mb past now q' x' (m q') = rw e' at (f.tracks q') in
        let order : h.last ≤ h'.last =
          not_older h'.last h.last (rw (h'.regular, h.regular) at (oldest q' x' e')) in
        Listed-insert_other ipi q' (recent_of (span_of mb p) at past) (
          Tried-recent_of (span_of mb p) at past q' h'.seen_at h'.tried
            (omega (arith, young, order, h'.not_later)))

    full_of_senders : Others ipi t → AllHeld senders t → length t < length senders
    full_of_senders full held =
        length-newcomer ipi t senders f.distinct full held
          (Listed-insert_self ipi (recent_of (span_of mb p) at past))

    evicted-old :
        (q : ℕ) (x : Meter)
        → meter_of q t ≡ some x
        → Others ipi t
        → NoneOlder t x
        → (h : IsHeld mb past now q x (m q)) → h.last + span_of mb p ≤ at
    evicted-old q x e full oldest h = elim (dec_lt at (h.last + span_of mb p)) [
      | no old ↦ omega (arith, old)
      | yes young ↦
          let held = AllHeld-recent q x e oldest h young in
          absurd (omega (arith, full_of_senders full held, f.size, few))
    ]

    Tracks-other :
        (q : ℕ)
        → (ipi == q) ≡ false
        → Kept t ipi q left
        → Tracks mb p
            ((ipi, at) ∷ past)
            at
            q
            (meter_of q left)
            ((ideal_charge m ipi (pos mb) (pos p) (pos at)).0 q)
    unfolding ideal_charge Kept
    Tracks-other q ne (inl same) =
        rw (ne, same)
          (Tracks-later mb p past ((ipi, at) ∷ past) now q at (meter_of q t) (m q) after
            (λ _ h. inr h) (f.tracks q))
    Tracks-other q ne (inr (gone, (x, e, full, oldest))) =
        let h : IsHeld mb past now q x (m q) = rw e at (f.tracks q) in
        rw (ne, gone)
          (record {
            burst = h.burst;
            last = h.last;
            regular = sym h.same ∙ h.regular;
            capped = h.capped;
            old = inr (evicted-old q x e full oldest h);
          })

    -- A packet leaves the table as the specification has it.
    pub Follows-charge :
        Follows n mb p ((ipi, at) ∷ past) at left (ideal_charge m ipi (pos mb) (pos p) (pos at)).0
    Follows-charge = record {
      packed = charged.packed;
      size = charged.same_length ∙ f.size;
      distinct = Distinct-charge t ipi (pos mb) (pos p) (pos at) f.distinct changed;
      tracks = λ q. elim (Bool-cases (ipi == q)) [
        | inl own ↦ Tracks-own q own
        | inr other ↦
            Tracks-other q other
              (Kept-charge t ipi (pos mb) (pos p) (pos at) f.distinct q other changed)
      ];
    }
