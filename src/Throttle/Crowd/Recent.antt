-- ===== src/Throttle/Crowd/Recent.antt =====
-- How many addresses have sent of late.
use japlusproxy.Prelude.{
  ℕ, ◌+◌, ◌<◌, ◌≤◌, ◌≡◌, ◌≢◌, ◌⊎◌, inl, inr, refl, true, false, ◌||◌, List, [], ◌∷◌, ◌++◌, arith,
  length, ltb, lt→ltb, ◌==◌, ==_iff, Bool, Bool-cases, if◌then◌else◌,
}
use japlusproxy.Throttle.Crowd.{Listed}

abbrev pub has : ℕ → List ℕ → Bool
has a [] = false
has a (x ∷ xs) = x == a || has a xs

abbrev pub insert : ℕ → List ℕ → List ℕ
insert a xs = if has a xs then xs else a ∷ xs

has-Listed : (a : ℕ) (xs : List ℕ) → has a xs ≡ true → Listed a xs
has-Listed a [] h = cc
has-Listed a (x ∷ xs) h = elim (Bool-cases (x == a)) [
  | inl here ↦ inl ((==_iff x a).0 here)
  | inr other ↦ inr (has-Listed a xs (rw other at h))
]

pub Listed-has : (a : ℕ) (xs : List ℕ) → Listed a xs → has a xs ≡ true
Listed-has a [] l = absurd l
Listed-has a (x ∷ xs) (inl here) = rw ((==_iff x a).1 here) refl
Listed-has a (x ∷ xs) (inr later) = elim (Bool-cases (x == a)) [
  | inl same ↦ rw same refl
  | inr other ↦ rw other (Listed-has a xs later)
]

pub Listed-insert_self : (a : ℕ) (xs : List ℕ) → Listed a (insert a xs)
Listed-insert_self a xs = elim (Bool-cases (has a xs)) [
  | inl there ↦ rw there (has-Listed a xs there)
  | inr new ↦ rw new (inl refl)
]

pub Listed-insert_other : (a b : ℕ) (xs : List ℕ) → Listed b xs → Listed b (insert a xs)
Listed-insert_other a b xs l = elim (Bool-cases (has a xs)) [
  | inl there ↦ rw there l
  | inr new ↦ rw new (inr l)
]

-- Packets of the past, the last one first: addresses and times.
abbrev pub Past : Type 0
Past = List (ℕ × ℕ)

abbrev pub Tried : ℕ → ℕ → Past → Type 0
Tried a t [] = ⊥
Tried a t ((b, u) ∷ past) = ((b ≡ a) × (u ≡ t)) ⊎ Tried a t past

-- The senders of the packets less than `span` ms before `at`, each of them once.
abbrev pub recent_of : ℕ → ℕ → Past → List ℕ
recent_of span at [] = []
recent_of span at ((a, t) ∷ past) =
    if ltb at (t + span) then insert a (recent_of span at past) else recent_of span at past

pub Tried-recent_of :
    (span at : ℕ) (past : Past) (a t : ℕ)
    → Tried a t past
    → at < t + span
    → Listed a (recent_of span at past)
Tried-recent_of span at [] a t tried h = absurd tried
Tried-recent_of span at ((b, u) ∷ past) a t (inl (same, then_at)) h =
    rw (lt→ltb at (u + span) (omega arith), same) (Listed-insert_self a (recent_of span at past))
Tried-recent_of span at ((b, u) ∷ past) a t (inr earlier) h =
    let rest = Tried-recent_of span at past a t earlier h in
    elim (Bool-cases (ltb at (u + span))) [
      | inl young ↦ rw young (Listed-insert_other b a (recent_of span at past) rest)
      | inr old ↦ rw old rest
    ]

-- At no packet have more than `n` addresses but for the exempt one sent within `span` ms, the packet
-- itself included.
abbrev pub IsCalm {ℓ} : {A : Type ℓ} → (A → ℕ) → (A → ℕ) → ℕ → ℕ → ℕ → Past → List A → Type 0
IsCalm address time exempt n span past [] = Unit
IsCalm address time exempt n span past (x ∷ xs) =
    (address x ≢ exempt → length (insert (address x) (recent_of span (time x) past)) ≤ n)
    × IsCalm address time exempt n span
        (if address x == exempt then past else (address x, time x) ∷ past) xs

-- The past after a run.
abbrev pub past_of {ℓ} : {A : Type ℓ} → (A → ℕ) → (A → ℕ) → ℕ → Past → List A → Past
past_of address time exempt past [] = past
past_of address time exempt past (x ∷ xs) =
    past_of address time exempt (if address x == exempt then past else (address x, time x) ∷ past)
      xs

pub IsCalm-append {ℓ} :
    {A : Type ℓ} (address time : A → ℕ) (exempt n span : ℕ) (past : Past) (a b : List A)
    → IsCalm address time exempt n span past (a ++ b)
    → IsCalm address time exempt n span past a
      × IsCalm address time exempt n span (past_of address time exempt past a) b
IsCalm-append address time exempt n span past [] b h = (tt, h)
IsCalm-append address time exempt n span past (x ∷ a) b h =
    let (early, late) =
      IsCalm-append address time exempt n span
        (if address x == exempt then past else (address x, time x) ∷ past) a b h.1 in
    ((h.0, early), late)

-- Taking one out of a list.
unfoldable pub remove : ℕ → List ℕ → List ℕ
remove a [] = []
remove a (x ∷ xs) = let rest = remove a xs in if x == a then xs else x ∷ rest

pub length-remove : (a : ℕ) (xs : List ℕ) → Listed a xs → length xs ≡ 1 + length (remove a xs)
unfolding remove
length-remove a [] listed = absurd listed
length-remove a (x ∷ xs) listed = elim (Bool-cases (x == a)) [
  | inl same ↦ rw same (omega arith)
  | inr other ↦ rw other (elim listed [
    | inl here ↦ cc (other, (==_iff x a).1 here)
    | inr later ↦ omega (arith, length-remove a xs later)
  ])
]

pub Listed-remove :
    (a c : ℕ) (xs : List ℕ) → (a == c) ≡ false → Listed c xs → Listed c (remove a xs)
unfolding remove
Listed-remove a c [] ne listed = listed
Listed-remove a c (x ∷ xs) ne listed = elim (Bool-cases (x == a)) [
  | inl same ↦ rw same (elim listed [
    | inl here ↦
        let both : (a == c) ≡ true = rw (← (==_iff x a).0 same) ((==_iff x c).1 here) in
        cc (both, ne)
    | inr later ↦ later
  ])
  | inr other ↦
      rw other
        (elim listed [ inl here ↦ inl here | inr later ↦ inr (Listed-remove a c xs ne later) ])
]
