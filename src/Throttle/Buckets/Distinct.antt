-- ===== src/Throttle/Buckets/Distinct.antt =====
-- A table holds a sender once, and what a packet does to such a table.
use japlusproxy.Prelude.{
  ℕ, length, ◌<◌, ◌≡◌, ◌⊎◌, inl, inr, refl, sym, ap, ◌∙◌, true, false, none, some, List, [], ◌∷◌,
  ◌++◌, arith, ◌==◌, ==_iff, Bool-cases,
}
use japlusproxy.Prelude.Int.{ℤ}
use japlusproxy.Throttle.RateLimit.{Meter, rate_limit}
use japlusproxy.Throttle.Buckets.{Bucket, charge}
use japlusproxy.Throttle.Buckets.Lookup.{Others}
use japlusproxy.Throttle.Buckets.Meters.{
  AllFree, Packed, meter_of, meter_of-AllFree, meter_of-other, meter_of_claimed, Others-none,
  start_of, holding,
}
use japlusproxy.Throttle.Buckets.Shape.{charge-Changed, IsChosen, NoneOlder, Changed}

-- No bucket in use has the address of one behind it.
abbrev pub Distinct : List Bucket → Type 0
Distinct [] = Unit
Distinct (b ∷ t) = (b.used ≡ true → meter_of b.ipi t ≡ none) × Distinct t

-- The first bucket in use decides.
pub meter_of-own :
    (q : ℕ) (b : Bucket) (t : List Bucket)
    → b.used ≡ true
    → (b.ipi == q) ≡ true
    → meter_of q (b ∷ t) ≡ some b.meter
unfolding meter_of
meter_of-own q b t used own = rw (used, own) refl

pub meter_of-behind :
    (q : ℕ) (b : Bucket) (t : List Bucket)
    → b.used ≡ true
    → (b.ipi == q) ≡ false
    → meter_of q (b ∷ t) ≡ meter_of q t
unfolding meter_of
meter_of-behind q b t used other = rw (used, other) refl

-- Of a full table whose buckets are distinct, the sender whose bucket is given away has none left.
evicted :
    (q ipi : ℕ) (before after : List Bucket) (b : Bucket) (m : Meter)
    → Distinct (before ++ b ∷ after)
    → Others ipi (before ++ b ∷ after)
    → (ipi == q) ≡ false
    → (b.ipi == q) ≡ true
    → (meter_of q (before ++ b ∷ after) ≡ some b.meter)
      × (meter_of q (before ++ holding ipi m ∷ after) ≡ none)
evicted q ipi [] after b m d o ne own =
    let same : b.ipi ≡ q = (==_iff b.ipi q).0 own in
    (
      meter_of-own q b after o.0 own,
      meter_of-behind q (holding ipi m) after refl ne ∙ (rw same at d.0) o.0,
    )
evicted q ipi (x ∷ before) after b m d o ne own =
    let (found, left) = evicted q ipi before after b m d.1 o.2 ne own in
    elim (Bool-cases (x.ipi == q)) [
      | inl twice ↦
          let nothing : meter_of q (before ++ b ∷ after) ≡ none =
            rw ((==_iff x.ipi q).0 twice) at (d.0 o.0) in
          cc (nothing, found)
      | inr other ↦
          (meter_of-behind q x _ o.0 other ∙ found, meter_of-behind q x _ o.0 other ∙ left)
    ]

-- What becomes of the meter of another sender: nothing, or it was the oldest of a full table.
unfoldable pub Kept : List Bucket → ℕ → ℕ → List Bucket → Type 0
Kept t ipi q left =
    (meter_of q left ≡ meter_of q t)
    ⊎ ((meter_of q left ≡ none)
        × ((m : Meter) × (meter_of q t ≡ some m) × Others ipi t × NoneOlder t m))

absent :
    (a ipi : ℕ) (before after : List Bucket) (b : Bucket) (m : Meter)
    → Others ipi before
    → (b.used ≡ true) ⊎ AllFree after
    → (ipi == a) ≡ false
    → meter_of a (before ++ b ∷ after) ≡ none
    → meter_of a (before ++ holding ipi m ∷ after) ≡ none
absent a ipi [] after b m o (inl used) ne h = elim (Bool-cases (b.ipi == a)) [
  | inl own ↦ cc (h, meter_of-own a b after used own)
  | inr other ↦
      meter_of-behind a (holding ipi m) after refl ne
      ∙ sym (meter_of-behind a b after used other)
      ∙ h
]
absent a ipi [] after b m o (inr free) ne h =
    meter_of-behind a (holding ipi m) after refl ne ∙ meter_of-AllFree a after free
absent a ipi (x ∷ before) after b m o taken ne h = elim (Bool-cases (x.ipi == a)) [
  | inl own ↦ cc (h, meter_of-own a x (before ++ b ∷ after) o.0 own)
  | inr other ↦
      meter_of-behind a x _ o.0 other
      ∙ absent a ipi before after b m o.2 taken ne
          (sym (meter_of-behind a x (before ++ b ∷ after) o.0 other) ∙ h)
]

pub ==-flip : (a b : ℕ) → (a == b) ≡ false → (b == a) ≡ false
==-flip a b h = ground arith

Distinct-holding :
    (ipi : ℕ) (before after : List Bucket) (b : Bucket) (m : Meter)
    → Distinct (before ++ b ∷ after)
    → Others ipi before
    → (b.used ≡ true) ⊎ AllFree after
    → meter_of ipi after ≡ none
    → Distinct (before ++ holding ipi m ∷ after)
Distinct-holding ipi [] after b m d o taken none_after = (λ _. none_after, d.1)
Distinct-holding ipi (x ∷ before) after b m d o taken none_after = (
  λ used. absent x.ipi ipi before after b m o.2 taken (==-flip x.ipi ipi o.1) (d.0 used),
  Distinct-holding ipi before after b m d.1 o.2 taken none_after,
)

Distinct-at :
    (before after : List Bucket) (b : Bucket)
    → Distinct (before ++ b ∷ after)
    → b.used ≡ true
    → meter_of b.ipi after ≡ none
Distinct-at [] after b d used = d.0 used
Distinct-at (x ∷ before) after b d used = Distinct-at before after b d.1 used

Others-after :
    (ipi : ℕ) (before after : List Bucket) (b : Bucket)
    → Others ipi (before ++ b ∷ after)
    → (b.used ≡ true) × Others ipi after
Others-after ipi [] after b o = (o.0, o.2)
Others-after ipi (x ∷ before) after b o = Others-after ipi before after b o.2

module _ (t : List Bucket) (ipi : ℕ) (mb p now : ℤ) (d : Distinct t) where
  module _ (q : ℕ) (ne : (ipi == q) ≡ false) where
    pub Kept-charge : Changed t ipi mb p now → Kept t ipi q (charge t ipi mb p now).0
    unfolding Kept
    Kept-charge c = by_choice c.chosen
      where
        same_as :
            meter_of q (
                c.before
                ++ holding ipi (rate_limit (start_of (meter_of ipi t)) mb p now).0 ∷ c.after)
              ≡ meter_of q (c.before ++ c.bucket ∷ c.after)
            → meter_of q (charge t ipi mb p now).0 ≡ meter_of q t
        same_as e = ap (meter_of q) c.left ∙ e ∙ ap (meter_of q) (sym c.splits)

        by_choice : IsChosen t ipi c.bucket c.after → Kept t ipi q (charge t ipi mb p now).0
        by_choice (inl (used, own)) =
            inl (same_as (meter_of-other q ipi c.before c.after c.bucket _ ne used (rw own ne)))
        by_choice (inr (inl (free, behind))) =
            inl (same_as (meter_of_claimed q ipi c.before c.after c.bucket _ ne free behind))
        by_choice (inr (inr (full, oldest))) =
            let all : Others ipi (c.before ++ c.bucket ∷ c.after) = rw c.splits at full in
            elim (Bool-cases (c.bucket.ipi == q)) [
              | inr other ↦
                  let (used, _) = Others-after ipi c.before c.after c.bucket all in
                  inl (same_as (meter_of-other q ipi c.before c.after c.bucket _ ne used other))
              | inl own ↦
                  let (found, gone) =
                    evicted q ipi c.before c.after c.bucket
                      (rate_limit (start_of (meter_of ipi t)) mb p now).0 (rw c.splits at d) all ne
                      own in
                  inr (
                    ap (meter_of q) c.left ∙ gone,
                    (c.bucket.meter, ap (meter_of q) c.splits ∙ found, full, oldest),
                  )
            ]

  pub Distinct-charge : Changed t ipi mb p now → Distinct (charge t ipi mb p now).0
  Distinct-charge c = rw c.left (by_choice c.chosen)
    where
      split_d : Distinct (c.before ++ c.bucket ∷ c.after)
      split_d = rw c.splits at d

      left : List Bucket
      left = c.before ++ holding ipi (rate_limit (start_of (meter_of ipi t)) mb p now).0 ∷ c.after

      by_choice : IsChosen t ipi c.bucket c.after → Distinct left
      by_choice (inl (used, own)) =
          Distinct-holding ipi c.before c.after c.bucket _ split_d c.others (inl used)
            (rw own at (Distinct-at c.before c.after c.bucket split_d used))
      by_choice (inr (inl (free, behind))) =
          Distinct-holding ipi c.before c.after c.bucket _ split_d c.others (inr behind)
            (meter_of-AllFree ipi c.after behind)
      by_choice (inr (inr (full, oldest))) =
          let (used, rest) = Others-after ipi c.before c.after c.bucket (rw c.splits at full) in
          Distinct-holding ipi c.before c.after c.bucket _ split_d c.others (inl used)
            (Others-none ipi c.after rest)

-- In a table that is not empty, holds no sender twice and whose used buckets stand in front, a packet
-- leaves the meter of every other sender as it was, or takes its bucket away; the latter only if the
-- table is full of others, and no bucket in it is older than the one that is taken.
pub charge-Kept :
    (t : List Bucket) (ipi : ℕ) (mb p now : ℤ)
    → Packed t
    → 0 < length t
    → Distinct t
    → (q : ℕ) → (ipi == q) ≡ false
    → Kept t ipi q (charge t ipi mb p now).0
charge-Kept t ipi mb p now packed some_slot d q ne =
    Kept-charge t ipi mb p now d q ne (charge-Changed t ipi mb p now packed some_slot)
