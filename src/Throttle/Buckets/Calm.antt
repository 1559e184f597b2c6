-- ===== src/Throttle/Buckets/Calm.antt =====
-- A table against a meter for every address, where only few addresses send in any short time: a
-- bucket is given to another sender only when it is as good as new.
pub mod Step
pub mod Start
use native.Mathlib.Decide.{dec_lt}
use japlusproxy.Prelude.{
  ℕ, ◌+◌, ◌*◌, ◌^◌, ◌<◌, ◌≤◌, ◌≡◌, ◌⊎◌, inl, inr, refl, sym, ap, ◌∙◌, true, false, Option, none,
  some, List, [], ◌∷◌, arith, length, ◌==◌, ==_iff, Bool-cases, if◌then◌else◌,
}
use japlusproxy.Prelude.Int.{ℤ, pos, ltb_ℤ}
use japlusproxy.Throttle.RateLimit.{Meter, rate_limit}
use japlusproxy.Throttle.RateLimit.Bound.{meter, StepFacts, step_facts}
use japlusproxy.Throttle.RateLimit.Bound.Stale.{rate_limit-stale}
use japlusproxy.Throttle.Crowd.Recent.{Past, Tried}
use japlusproxy.Throttle.Buckets.{Bucket, charge}
use japlusproxy.Throttle.Buckets.Lookup.{Others}
use japlusproxy.Throttle.Buckets.Meters.{meter_of, start_of, Packed}
use japlusproxy.Throttle.Buckets.Charge.{Charged, charge-Charged}
use japlusproxy.Throttle.Buckets.Shape.{NoneOlder, Changed, charge-Changed}
use japlusproxy.Throttle.Buckets.Distinct.{Distinct, Kept, Kept-charge, Distinct-charge}
use japlusproxy.Throttle.Buckets.Full.{AllHeld, length-newcomer}
use japlusproxy.Throttle.Buckets.View.{Meters, ideal_charge}

-- How long it takes until a full burst has leaked out.
abbrev pub span_of : ℕ → ℕ → ℕ
span_of mb p = (mb + 1) * p

-- A bucket of `q` in the table: its meter is the one of the specification, and `q` has sent at its
-- last time or later.
pub record IsHeld (mb : ℕ) (past : Past) (now q : ℕ) (x y : Meter) : Type 0 where
  pub same : x ≡ y
  pub burst : ℕ
  pub last : ℕ
  pub regular : x ≡ meter burst last
  pub capped : burst ≤ mb
  pub seen_at : ℕ
  pub tried : Tried q seen_at past
  pub not_later : last ≤ seen_at
  pub passed : seen_at ≤ now

-- A sender without a bucket: the specification's meter is new, or as good as new.
pub record IsOld (mb p now : ℕ) (y : Meter) : Type 0 where
  pub burst : ℕ
  pub last : ℕ
  pub regular : y ≡ meter burst last
  pub capped : burst ≤ mb
  pub old : (y ≡ meter 0 0) ⊎ (last + span_of mb p ≤ now)

abbrev pub Tracks : ℕ → ℕ → Past → ℕ → ℕ → Option Meter → Meter → Type 0
Tracks mb p past now q none y = IsOld mb p now y
Tracks mb p past now q (some x) y = IsHeld mb past now q x y

pub record Follows (n mb p : ℕ) (past : Past) (now : ℕ) (t : List Bucket) (m : Meters)
    : Type 0 where
  pub packed : Packed t
  pub size : length t ≡ n
  pub distinct : Distinct t
  pub tracks : (q : ℕ) → Tracks mb p past now q (meter_of q t) (m q)

-- A sender's next packet finds a regular meter, and gets the answer of the specification.
record StartsAs (mb p now at : ℕ) (x y : Meter) : Type 0 where
  burst : ℕ
  last : ℕ
  regular : x ≡ meter burst last
  capped : burst ≤ mb
  past_now : last ≤ now
  agrees : rate_limit x (pos mb) (pos p) (pos at) ≡ rate_limit y (pos mb) (pos p) (pos at)

module _ (n mb p : ℕ) (some_slot : 0 < n) (some_burst : 0 < mb) (small : mb < 2 ^ 31)
    (some_period : 0 < p) where
  Tracks-StartsAs :
      (past : Past) (now q at : ℕ) (o : Option Meter) (y : Meter)
      → now ≤ at
      → at < 2 ^ 31
      → Tracks mb p past now q o y
      → StartsAs mb p now at (start_of o) y
  Tracks-StartsAs past now q at none y after fits h = record {
    burst = 0;
    last = 0;
    regular = refl;
    capped = omega arith;
    past_now = omega arith;
    agrees = elim h.old [
      | inl new ↦ rw new refl
      | inr stale ↦ rw h.regular (
          sym (
            rate_limit-stale mb p at some_period some_burst small fits h.burst h.last h.capped
              (omega (arith, stale))))
    ];
  }
  Tracks-StartsAs past now q at (some x) y after fits h = record {
    burst = h.burst;
    last = h.last;
    regular = h.regular;
    capped = h.capped;
    past_now = omega (arith, h.not_later, h.passed);
    agrees = rw h.same refl;
  }

-- Time passes, and the past grows.
pub Tracks-later :
    (mb p : ℕ) (past past' : Past) (now q at : ℕ) (o : Option Meter) (y : Meter)
    → now ≤ at
    → ((u : ℕ) → Tried q u past → Tried q u past')
    → Tracks mb p past now q o y
    → Tracks mb p past' at q o y
Tracks-later mb p past past' now q at none y after more h = record {
  burst = h.burst;
  last = h.last;
  regular = h.regular;
  capped = h.capped;
  old = elim h.old [ inl new ↦ inl new | inr stale ↦ inr (omega (arith, stale)) ];
}
Tracks-later mb p past past' now q at (some x) y after more h = record {
  same = h.same;
  burst = h.burst;
  last = h.last;
  regular = h.regular;
  capped = h.capped;
  seen_at = h.seen_at;
  tried = more h.seen_at h.tried;
  not_later = h.not_later;
  passed = omega (arith, h.passed);
}
