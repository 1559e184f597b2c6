-- ===== src/Throttle/Tally.antt =====
-- The count of dropped packets in the detours of proxy/patch.c, and what its log adds up to.
use japlusproxy.Prelude.{
  ℕ, ◌+◌, ◌^◌, ◌<◌, ◌≡◌, refl, ◌∙◌, ap, ◌⊎◌, Bool, true, false, Option, none, some, List, [], ◌∷◌,
  arith, length, Bool-cases, inl, inr, if-holds, if◌then◌else◌,
}
use japlusproxy.Prelude.Int.{ℤ, pos, pos_part, ◌+ℤ◌, ltb_ℤ, wrap32, wrap32-pos, +ℤ-pos}
use japlusproxy.Throttle.RateLimit.Range.{IsInt32, wrap32-IsInt32}

-- The count of what was dropped since the last line of the log, and when that line was written.
pub record Tally : Type 0 where
  pub dropped : ℤ
  pub last_msg : ℤ

-- `dropped++; if (lastMsg + 5000 < now) { … }`, the same in the three detours.
unfoldable pub count_drop : Tally → ℤ → Tally × Option ℤ
count_drop c now =
    let dropped = wrap32 (c.dropped +ℤ pos 1) in
    if ltb_ℤ (wrap32 (c.last_msg +ℤ pos 5000)) now
    then (record { dropped = pos 0; last_msg = now }, some dropped)
    else (record c { dropped = dropped }, none)

abbrev pub count_of : Option ℤ → ℕ
count_of none = 0
count_of (some n) = pos_part n

-- One count is logged and reset, or stays.
pub count_drop-sum :
    (s : Tally) (now : ℤ) (d : ℕ)
    → s.dropped ≡ pos d
    → d + 1 < 2 ^ 31
    → (d' : ℕ) × ((count_drop s now).0.dropped ≡ pos d')
      × (count_of (count_drop s now).1 + d' ≡ d + 1)
unfolding count_drop
count_drop-sum s now d e small =
    let next : wrap32 (s.dropped +ℤ pos 1) ≡ pos (d + 1) =
      rw e (rw +ℤ-pos (wrap32-pos (d + 1) small)) in
    elim (Bool-cases (ltb_ℤ (wrap32 (s.last_msg +ℤ pos 5000)) now)) [
      | inl due ↦ (0, rw due refl, rw (due, next) (omega arith))
      | inr soon ↦ (d + 1, rw soon next, rw soon (omega arith))
    ]

-- What a detour made of one packet.
pub record Fate {ℓ} (S : Type ℓ) : Type ℓ where
  pub after : S
  pub forwarded : Bool
  pub logged : Option ℤ

-- What became of a run: the state after it, how many packets reached the handler, and the sum of
-- the counts in the log.
pub record Account {ℓ} (S : Type ℓ) : Type ℓ where
  pub last : S
  pub handled : ℕ
  pub reported : ℕ

pub account {ℓ ℓ'} : {S : Type ℓ} {P : Type ℓ'} → (P → S → Fate S) → S → List P → Account S
account detour s [] = record { last = s; handled = 0; reported = 0 }
account detour s (p ∷ packets) =
    let f = detour p s in
    let rest = account detour f.after packets in
    record {
      last = rest.last;
      handled = (if f.forwarded then 1 else 0) + rest.handled;
      reported = count_of f.logged + rest.reported;
    }

-- A packet is forwarded and not counted, or dropped and counted at the time `now`.
abbrev pub IsCounted {ℓ} : {S : Type ℓ} → (S → Tally) → Tally → ℤ → Fate S → Type 0
IsCounted tally before now f =
    ((f.forwarded ≡ true) × (tally f.after ≡ before) × (f.logged ≡ none))
    ⊎ ((f.forwarded ≡ false)
        × (tally f.after ≡ (count_drop before now).0)
        × (f.logged ≡ (count_drop before now).1))

-- Each packet was handled, or is in a count of the log, or is in the count that is left.
pub IsAccounted {ℓ} : {S : Type ℓ} → (S → Tally) → ℕ → ℕ → Account S → Type 0
IsAccounted tally d n a =
    (left : ℕ) × ((tally a.last).dropped ≡ pos left) × (a.handled + a.reported + left ≡ d + n)

module _ {ℓ ℓ'} {S : Type ℓ} {P : Type ℓ'} (tally : S → Tally) (now_of : P → S → ℤ)
    (detour : P → S → Fate S)
    (counts : (p : P) (s : S) → IsCounted tally (tally s) (now_of p s) (detour p s)) where
  pub account-IsAccounted :
      (s : S) (packets : List P) (d : ℕ)
      → (tally s).dropped ≡ pos d
      → d + length packets < 2 ^ 31
      → IsAccounted tally d (length packets) (account detour s packets)
  unfolding IsAccounted account
  account-IsAccounted s [] d e small = (d, e, omega arith)
  account-IsAccounted s (p ∷ packets) d e small = elim (counts p s) [
    | inl (through, same, quiet) ↦
        let (left, after, total) =
          account-IsAccounted (detour p s).after packets d (ap (λ c. c.dropped) same ∙ e)
            (omega arith) in
        (left, after, rw (through, quiet) (omega (arith, total)))
    | inr (stop, counted, logged) ↦
        let (d', kept, sum) = count_drop-sum (tally s) (now_of p s) d e (omega arith) in
        let (left, after, total) =
          account-IsAccounted (detour p s).after packets d' (ap (λ c. c.dropped) counted ∙ kept)
            (omega (arith, sum)) in
        (left, after, rw (stop, logged) (omega (arith, total, sum)))
  ]

pub account-handled_none {ℓ ℓ'} :
    {S : Type ℓ} {P : Type ℓ'} (detour : P → S → Fate S)
    → ((p : P) (s : S) → (detour p s).forwarded ≡ false)
    → (s : S) (packets : List P) → (account detour s packets).handled ≡ 0
unfolding account
account-handled_none detour stop s [] = refl
account-handled_none detour stop s (p ∷ packets) =
    rw (stop p s) (omega (arith, account-handled_none detour stop (detour p s).after packets))

-- The two `int` of the count stay in range.
abbrev pub InRange : Tally → Type 0
InRange c = IsInt32 c.dropped × IsInt32 c.last_msg

pub count_drop-InRange :
    (c : Tally) (now : ℤ) → InRange c → IsInt32 now → InRange (count_drop c now).0
unfolding count_drop
count_drop-InRange c now h int =
    if-holds (λ (r : Tally × Option ℤ). InRange r.0) (ltb_ℤ (wrap32 (c.last_msg +ℤ pos 5000)) now)
      (λ _. (omega arith, int)) (λ _. (wrap32-IsInt32 (c.dropped +ℤ pos 1), h.1))
