-- ===== src/Throttle/Buckets/Calm/Start.antt =====
-- The table at the start, as time passes, and the meters it stands for.
use japlusproxy.Prelude.{
  ℕ, zero, suc, ◌≤◌, ◌≡◌, inl, inr, refl, sym, ◌∙◌, Option, none, some, List, [], ◌∷◌, arith,
  length, replicate,
}
use japlusproxy.Throttle.RateLimit.{Meter}
use japlusproxy.Throttle.RateLimit.Bound.{meter}
use japlusproxy.Throttle.Crowd.Recent.{Past}
use japlusproxy.Throttle.Buckets.{Bucket, empty_bucket, empty_meter}
use japlusproxy.Throttle.Buckets.Meters.{AllFree, Packed, meter_of, meter_of-AllFree}
use japlusproxy.Throttle.Buckets.Distinct.{Distinct}
use japlusproxy.Throttle.Buckets.View.{Meters}
use japlusproxy.Throttle.Buckets.Calm.{Tracks, Follows, Tracks-later}

AllFree-replicate : (n : ℕ) → AllFree (replicate n empty_bucket)
AllFree-replicate zero = tt
AllFree-replicate (suc n) = (refl, AllFree-replicate n)

Packed-AllFree : (t : List Bucket) → AllFree t → Packed t
Packed-AllFree [] f = tt
Packed-AllFree (b ∷ t) f = inr f

Distinct-AllFree : (t : List Bucket) → AllFree t → Distinct t
Distinct-AllFree [] f = tt
Distinct-AllFree (b ∷ t) f = (λ used. cc (used, f.0), Distinct-AllFree t f.1)

length-replicate : (n : ℕ) → length (replicate n empty_bucket) ≡ n
length-replicate zero = refl
length-replicate (suc n) = omega (arith, length-replicate n)

-- The table as it is loaded.
pub Follows-init : (n mb p : ℕ) → Follows n mb p [] 0 (replicate n empty_bucket) (λ _. empty_meter)
Follows-init n mb p =
    let free = AllFree-replicate n in
    record {
      packed = Packed-AllFree (replicate n empty_bucket) free;
      size = length-replicate n;
      distinct = Distinct-AllFree (replicate n empty_bucket) free;
      tracks = λ q.
          rw (meter_of-AllFree q (replicate n empty_bucket) free)
            (record { burst = 0; last = 0; regular = refl; capped = omega arith; old = inl refl });
    }

-- A meter of the natural numbers, within its burst, that was charged at `now` at the latest.
pub record IsRegular (cap now : ℕ) (m : Meter) : Type 0 where
  pub burst : ℕ
  pub last : ℕ
  pub same : m ≡ meter burst last
  pub capped : burst ≤ cap
  pub past : last ≤ now

Tracks-IsRegular :
    (mb p : ℕ) (past : Past) (now q : ℕ) (o : Option Meter) (y : Meter)
    → Tracks mb p past now q o y
    → IsRegular mb now y
Tracks-IsRegular mb p past now q none y h = elim h.old [
  | inl new ↦ record { burst = 0; last = 0; same = new; capped = omega arith; past = omega arith }
  | inr stale ↦ record {
    burst = h.burst;
    last = h.last;
    same = h.regular;
    capped = h.capped;
    past = omega (arith, stale);
  }
]
Tracks-IsRegular mb p past now q (some x) y h = record {
  burst = h.burst;
  last = h.last;
  same = sym h.same ∙ h.regular;
  capped = h.capped;
  past = omega (arith, h.not_later, h.passed);
}

module _ {n mb p : ℕ} {past : Past} {now : ℕ} {t : List Bucket} {m : Meters}
    (f : Follows n mb p past now t m) where
  pub Follows-IsRegular : (q : ℕ) → IsRegular mb now (m q)
  Follows-IsRegular q = Tracks-IsRegular mb p past now q (meter_of q t) (m q) (f.tracks q)

  pub Follows-later : (at : ℕ) → now ≤ at → Follows n mb p past at t m
  Follows-later at after = record {
    packed = f.packed;
    size = f.size;
    distinct = f.distinct;
    tracks = λ q.
        Tracks-later mb p past past now q at (meter_of q t) (m q) after (λ _ h. h) (f.tracks q);
  }
