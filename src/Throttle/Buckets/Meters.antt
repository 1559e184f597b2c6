-- ===== src/Throttle/Buckets/Meters.antt =====
-- A table of buckets, seen through the meter of each sender.
use japlusproxy.Prelude.{
  ℕ, zero, suc, ◌<◌, ◌≡◌, ◌⊎◌, inl, inr, refl, ap, ◌∙◌, true, false, Option, none, some, List, [],
  ◌∷◌, ◌++◌, arith, length, ◌==◌, if◌then◌else◌,
}
use japlusproxy.Throttle.RateLimit.{Meter}
use japlusproxy.Throttle.Buckets.{Bucket, empty_meter}
use japlusproxy.Throttle.Buckets.Lookup.{Others, SplitsAt}

-- The meter that the table keeps for a sender.
unfoldable pub meter_of : ℕ → List Bucket → Option Meter
meter_of ipi [] = none
meter_of ipi (b ∷ bs) =
    let rest = meter_of ipi bs in
    if b.used then (if b.ipi == ipi then some b.meter else rest) else none

-- A sender with no bucket starts from an empty one.
abbrev pub start_of : Option Meter → Meter
start_of none = empty_meter
start_of (some m) = m

abbrev pub AllFree : List Bucket → Type 0
AllFree [] = Unit
AllFree (b ∷ bs) = (b.used ≡ false) × AllFree bs

-- The used buckets stand in front.
abbrev pub Packed : List Bucket → Type 0
Packed [] = Unit
Packed (b ∷ bs) = ((b.used ≡ true) × Packed bs) ⊎ AllFree (b ∷ bs)

abbrev pub holding : ℕ → Meter → Bucket
holding ipi m = record { ipi = ipi; meter = m; used = true }

pub meter_of-Others :
    (ipi : ℕ) (before rest : List Bucket)
    → Others ipi before
    → meter_of ipi (before ++ rest) ≡ meter_of ipi rest
unfolding meter_of
meter_of-Others ipi [] rest o = refl
meter_of-Others ipi (b ∷ before) rest o = rw (o.0, o.1) (meter_of-Others ipi before rest o.2)

pub meter_of-holding :
    (ipi : ℕ) (before after : List Bucket) (m : Meter)
    → Others ipi before
    → meter_of ipi (before ++ holding ipi m ∷ after) ≡ some m
meter_of-holding ipi before after m o =
    meter_of-Others ipi before _ o ∙ unfold meter_of in ground arith

-- The bucket of one sender does not show in the meter of another.
pub meter_of-other :
    (q ipi : ℕ) (before after : List Bucket) (b : Bucket) (m : Meter)
    → (ipi == q) ≡ false
    → b.used ≡ true
    → (b.ipi == q) ≡ false
    → meter_of q (before ++ holding ipi m ∷ after) ≡ meter_of q (before ++ b ∷ after)
unfolding meter_of
meter_of-other q ipi [] after b m ne u i = ground arith
meter_of-other q ipi (x ∷ before) after b m ne u i =
    rw (meter_of-other q ipi before after b m ne u i)

pub meter_of-AllFree : (q : ℕ) (bs : List Bucket) → AllFree bs → meter_of q bs ≡ none
unfolding meter_of
meter_of-AllFree q [] f = refl
meter_of-AllFree q (b ∷ bs) f = rw f.0

pub meter_of_claimed :
    (q ipi : ℕ) (before after : List Bucket) (b : Bucket) (m : Meter)
    → (ipi == q) ≡ false
    → b.used ≡ false
    → AllFree after
    → meter_of q (before ++ holding ipi m ∷ after) ≡ meter_of q (before ++ b ∷ after)
unfolding meter_of
meter_of_claimed q ipi [] after b m ne u f = ground (arith, meter_of-AllFree q after f)
meter_of_claimed q ipi (x ∷ before) after b m ne u f =
    rw (meter_of_claimed q ipi before after b m ne u f)

AllFree-Packed : (bs : List Bucket) → AllFree bs → Packed bs
AllFree-Packed [] f = tt
AllFree-Packed (b ∷ bs) f = inr f

-- In a packed table nothing used follows a free bucket.
pub AllFree-after :
    (ipi : ℕ) (before after : List Bucket) (b : Bucket)
    → Others ipi before
    → b.used ≡ false
    → Packed (before ++ b ∷ after)
    → AllFree after
AllFree-after ipi [] after b o u (inl (u', p)) = cc
AllFree-after ipi [] after b o u (inr f) = f.1
AllFree-after ipi (x ∷ before) after b o u (inl (u', p)) = AllFree-after ipi before after b o.2 u p
AllFree-after ipi (x ∷ before) after b o u (inr f) = cc (o.0, f.0)

pub Packed-holding :
    (ipi q : ℕ) (before after : List Bucket) (b : Bucket) (m : Meter)
    → Others q before
    → Packed (before ++ b ∷ after)
    → Packed (before ++ holding ipi m ∷ after)
Packed-holding ipi q [] after b m o (inl (u, p)) = inl (refl, p)
Packed-holding ipi q [] after b m o (inr f) = inl (refl, AllFree-Packed after f.1)
Packed-holding ipi q (x ∷ before) after b m o (inl (u, p)) =
    inl (u, Packed-holding ipi q before after b m o.2 p)
Packed-holding ipi q (x ∷ before) after b m o (inr f) = cc (o.0, f.0)

pub holding_own : (b : Bucket) (ipi : ℕ) → b.used ≡ true → b.ipi ≡ ipi → b ≡ holding ipi b.meter
holding_own b ipi u i = ground arith

pub Others-none : (ipi : ℕ) (t : List Bucket) → Others ipi t → meter_of ipi t ≡ none
unfolding meter_of
Others-none ipi [] o = refl
Others-none ipi (b ∷ t) o = rw (o.0, o.1) (Others-none ipi t o.2)

-- A table that is full of other senders, split at a slot of it.
pub split_at :
    (ipi v : ℕ) (t : List Bucket)
    → Others ipi t
    → v < length t
    → (s : SplitsAt t ipi) × (length s.before ≡ v)
split_at ipi v [] o h = absurd (omega arith)
split_at ipi zero (b ∷ t) o h =
    (record { before = []; bucket = b; after = t; splits = refl; others = tt }, refl)
split_at ipi (suc v) (b ∷ t) o h =
    let (s, e) = split_at ipi v t o.2 (omega arith) in
    (
      record {
        before = b ∷ s.before;
        bucket = s.bucket;
        after = s.after;
        splits = ap (◌∷◌ b) s.splits;
        others = (o.0, o.1, s.others);
      },
      ap suc e,
    )
