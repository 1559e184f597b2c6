-- ===== src/Throttle/Buckets/Lookup.antt =====
-- BucketFor: which slot it gives a sender.
use native.Mathlib.Decide.{dec_lt}
use mathlib.Core.List.{append-nil, append_assoc}
use japlusproxy.Prelude.{
  ℕ, ◌+◌, ◌<◌, ◌≡◌, inl, inr, refl, ap, true, false, Option, none, some, List, [], ◌∷◌, ◌++◌, arith,
  length, length-append, get_or, set, ◌==◌, ==_iff, Bool-cases,
}
use japlusproxy.Throttle.Buckets.{
  Bucket, empty_bucket, Slot, found, victim, older, next_victim, scan,
}

-- Slots that hold other senders.
abbrev pub Others : ℕ → List Bucket → Type 0
Others ipi [] = Unit
Others ipi (b ∷ bs) = (b.used ≡ true) × ((b.ipi == ipi) ≡ false) × Others ipi bs

-- The table is `before`, then `bucket`, then `after`, and `before` holds other senders.
pub record SplitsAt (t : List Bucket) (ipi : ℕ) : Type 0 where
  pub before : List Bucket
  pub bucket : Bucket
  pub after : List Bucket
  pub splits : t ≡ before ++ bucket ∷ after
  pub others : Others ipi before

-- No bucket of the table is older than the one at `v`.
abbrev pub IsOldest : List Bucket → ℕ → ℕ → Type 0
IsOldest t n v = (v < n) × ((j : ℕ) → j < n → older t (get_or t j empty_bucket) v ≡ false)

-- The three ends of the loop.
pub data Ends (t : List Bucket) (ipi : ℕ) : Slot → Type 0 where
  at_own :
      (s : SplitsAt t ipi)
      → s.bucket.used ≡ true
      → s.bucket.ipi ≡ ipi
      → Ends t ipi (found (length s.before))
  at_free :
      (s : SplitsAt t ipi) → s.bucket.used ≡ false → Ends t ipi (victim (some (length s.before)))
  at_full : (v : ℕ) → Others ipi t → IsOldest t (length t) v → Ends t ipi (victim (some v))
  at_nothing : t ≡ [] → Ends t ipi (victim none)

-- What the loop knows of its candidate after the buckets `before`.
abbrev Candidate : List Bucket → List Bucket → Option ℕ → Type 0
Candidate t before none = before ≡ []
Candidate t before (some v) = IsOldest t (length before) v

pub get_or-at :
    (before : List Bucket) (b : Bucket) (after : List Bucket)
    → get_or (before ++ b ∷ after) (length before) empty_bucket ≡ b
get_or-at [] b after = refl
get_or-at (x ∷ before) b after = get_or-at before b after

pub set-at :
    (before : List Bucket) (b c : Bucket) (after : List Bucket)
    → set (before ++ b ∷ after) (length before) c ≡ before ++ c ∷ after
set-at [] b c after = refl
set-at (x ∷ before) b c after = ap (◌∷◌ x) (set-at before b c after)

Others-concat :
    (ipi : ℕ) (before : List Bucket) (b : Bucket)
    → Others ipi before
    → b.used ≡ true
    → (b.ipi == ipi) ≡ false
    → Others ipi (before ++ b ∷ [])
Others-concat ipi [] b o u n = (u, n, tt)
Others-concat ipi (x ∷ before) b o u n = (o.0, o.1, Others-concat ipi before b o.2 u n)

older_refl : (t : List Bucket) (i : ℕ) → older t (get_or t i empty_bucket) i ≡ false
older_refl t i = ground arith

-- A bucket that is older than the candidate is no newer than all before it.
older_trans :
    (t : List Bucket) (b c : Bucket) (i v : ℕ)
    → get_or t i empty_bucket ≡ b
    → older t b v ≡ true
    → older t c v ≡ false
    → older t c i ≡ false
older_trans t b c i v e h k = rw e (ground arith)

IsOldest-next :
    (t : List Bucket) (b : Bucket) (i v : ℕ)
    → get_or t i empty_bucket ≡ b
    → IsOldest t i v
    → (r : ℕ) × (next_victim t b i (some v) ≡ some r) × IsOldest t (i + 1) r
IsOldest-next t b i v e (lt, least) = elim (Bool-cases (older t b v)) [
  | inl new ↦ (
    i,
    rw new,
    (
      omega arith,
      λ j h. elim (dec_lt j i) [
        | yes before ↦ older_trans t b (get_or t j empty_bucket) i v e new (least j before)
        | no here ↦ rw (let same : j ≡ i = omega arith in same) (older_refl t i)
      ],
    ),
  )
  | inr old ↦ (
    v,
    rw old,
    (
      omega arith,
      λ j h. elim (dec_lt j i) [
        | yes before ↦ least j before
        | no here ↦ rw (let same : j ≡ i = omega arith in same) (rw e old)
      ],
    ),
  )
]

Candidate-next :
    (t before : List Bucket) (b : Bucket) (v : Option ℕ)
    → get_or t (length before) empty_bucket ≡ b
    → Candidate t before v
    → Candidate t (before ++ b ∷ []) (next_victim t b (length before) v)
Candidate-next t [] b none e c =
    (omega arith, λ j h. rw (let first : j ≡ 0 = omega arith in first) (older_refl t 0))
Candidate-next t (x ∷ before) b none e c = absurd (cc)
Candidate-next t before b (some v) e c =
    let (r, chosen, oldest) = IsOldest-next t b (length before) v e c in
    rw chosen (rw length-append oldest)

split_here :
    (t before : List Bucket) (b : Bucket) (bs : List Bucket) (ipi : ℕ)
    → t ≡ before ++ b ∷ bs
    → Others ipi before
    → SplitsAt t ipi
split_here t before b bs ipi e o = record {
  before = before;
  bucket = b;
  after = bs;
  splits = e;
  others = o;
}

scan-Ends :
    (t before bs : List Bucket) (ipi : ℕ) (v : Option ℕ)
    → t ≡ before ++ bs
    → Others ipi before
    → Candidate t before v
    → Ends t ipi (scan t ipi (length before) bs v)
unfolding scan split_here
scan-Ends t before [] ipi none e o c = at_nothing (rw e (rw append-nil c))
scan-Ends t before [] ipi (some v) e o c =
    at_full v (rw e (rw append-nil o))
      (rw (let same : length t ≡ length before = rw e (rw append-nil) in same) c)
scan-Ends t before (b ∷ bs) ipi v e o c = elim (Bool-cases b.used) [
  | inr free ↦ rw free (at_free (split_here t before b bs ipi e o) free)
  | inl taken ↦ elim (Bool-cases (b.ipi == ipi)) [
    | inl own ↦
        rw (taken, own) (at_own (split_here t before b bs ipi e o) taken ((==_iff b.ipi ipi).0 own))
    | inr other ↦
        rw (taken, other)
          (let at : get_or t (length before) empty_bucket ≡ b = rw e (get_or-at before b bs) in
            let one_on : length (before ++ b ∷ []) ≡ length before + 1 =
              length-append before (b ∷ []) in
            rw one_on at (
              scan-Ends t (before ++ b ∷ []) bs ipi (next_victim t b (length before) v)
                (rw append_assoc e) (Others-concat ipi before b o taken other)
                (Candidate-next t before b v at c)))
  ]
]

-- The loop of BucketFor ends at the sender's own bucket behind buckets of others, at the first free
-- one if it has none, in a full table at one that no other is older than, and with no slot only
-- for an empty table.
pub bucket_for-Ends : (t : List Bucket) (ipi : ℕ) → Ends t ipi (scan t ipi 0 t none)
bucket_for-Ends t ipi = scan-Ends t [] t ipi none refl tt refl
