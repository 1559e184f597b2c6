-- ===== src/Info/Parse/Grammar.antt =====
-- The format of info strings, the first value of a key, and what a buffer takes of it, described
-- without the functions of proxy/proxy.c.
use japlusproxy.Prelude.{
  ℕ, zero, suc, ◌+◌, ◌<◌, ◌≤◌, ◌≡◌, ◌≢◌, ◌⊎◌, inl, inr, refl, ap, Bytes, true, Option, none, some,
  [], ◌∷◌, ◌++◌, arith, length, take, ◌==◌, ==_iff, Bool-cases,
}
use japlusproxy.Text.Classes.{AreAlike, AreAlike-iff}
use japlusproxy.Info.{
  Pair, until_slash, from_slash, pair_behind, same_key, next_pair, info_fuel, cut_value,
}
use japlusproxy.Info.Pairs.{NoSlash, Pairs, lookup}
use japlusproxy.Info.Laws.{same_key_iff}
use japlusproxy.Info.Parse.{pairs_from, pairs_of, Option-cases, next_pair-Taken, length-Taken}

-- No pair can be read off: the string does not begin with a backslash, or it has no other one.
abbrev pub IsTorn : Bytes → Type 0
IsTorn [] = Unit
IsTorn (c ∷ s) = (c ≢ b'\\') ⊎ NoSlash s

-- A value goes up to the next backslash, or to the end of the string.
abbrev pub IsEnd : Bytes → Type 0
IsEnd [] = Unit
IsEnd (c ∷ s) = c ≡ b'\\'

-- The pairs `\key\value` that a string begins with.
pub data Splits : Bytes → Pairs → Type 0 where
  torn : {s : Bytes} → IsTorn s → Splits s []
  pair :
      {s : Bytes} {ps : Pairs} (k v rest : Bytes)
      → s ≡ b'\\' ∷ (k ++ (b'\\' ∷ (v ++ rest)))
      → NoSlash k
      → NoSlash v
      → IsEnd rest
      → Splits rest ps
      → Splits s ((k, v) ∷ ps)

-- The value of the first pair whose key is `key` up to case.
pub data FirstOf (key : Bytes) : Pairs → Option Bytes → Type 0 where
  nowhere : FirstOf key [] none
  here : {k v : Bytes} {ps : Pairs} → AreAlike k key → FirstOf key ((k, v) ∷ ps) (some v)
  later :
      {k v : Bytes} {ps : Pairs} {o : Option Bytes}
      → (AreAlike k key → ⊥)
      → FirstOf key ps o
      → FirstOf key ((k, v) ∷ ps) o

-- What a buffer of `outlen` bytes holds of a value: as much of it as leaves room for the NUL.
pub data Fits (outlen : ℕ) : Option Bytes → Option Bytes → Type 0 where
  no_buffer : {o : Option Bytes} → outlen ≡ 0 → Fits outlen o none
  absent : Fits outlen none none
  begun :
      {v : Bytes} (w more : Bytes)
      → v ≡ w ++ more
      → length w < outlen
      → (more ≡ []) ⊎ (length w + 1 ≡ outlen)
      → Fits outlen (some v) (some w)

pub record IsReading (s key : Bytes) (outlen : ℕ) (result : Option Bytes) : Type 0 where
  pub pairs : Pairs
  pub value : Option Bytes
  pub splits : Splits s pairs
  pub first : FirstOf key pairs value
  pub fits : Fits outlen value result

from_slash-NoSlash : (s : Bytes) → from_slash s ≡ [] → NoSlash s
unfolding from_slash
from_slash-NoSlash [] h = tt
from_slash-NoSlash (c ∷ s) h = elim (Bool-cases (c == b'\\')) [
  | inl slash ↦ cc (rw slash at h)
  | inr other ↦ (λ e. cc (other, (==_iff c b'\\').1 e), from_slash-NoSlash s (rw other at h))
]

from_slash-IsEnd : (s : Bytes) → IsEnd (from_slash s)
unfolding from_slash
from_slash-IsEnd [] = tt
from_slash-IsEnd (c ∷ s) = elim (Bool-cases (c == b'\\')) [
  | inl slash ↦ rw slash ((==_iff c b'\\').0 slash)
  | inr other ↦ rw other (from_slash-IsEnd s)
]

pair_behind-none : (k r : Bytes) → pair_behind k r ≡ none → r ≡ []
pair_behind-none k [] h = refl
pair_behind-none k (c ∷ r) h = cc

next_pair-IsTorn : (s : Bytes) → next_pair s ≡ none → IsTorn s
unfolding next_pair
next_pair-IsTorn [] h = tt
next_pair-IsTorn (c ∷ k) h = elim (Bool-cases (c == b'\\')) [
  | inl slash ↦ inr (from_slash-NoSlash k (pair_behind-none k (from_slash k) (rw slash at h)))
  | inr other ↦ inl (λ e. cc (other, (==_iff c b'\\').1 e))
]

pair_behind-IsEnd : (k r : Bytes) (p : Pair) → pair_behind k r ≡ some p → IsEnd p.rest
pair_behind-IsEnd k [] p h = cc
pair_behind-IsEnd k (c ∷ v) p h =
    let same : record { key = until_slash k; value = until_slash v; rest = from_slash v } ≡ p =
      cc in
    rw (← same) (from_slash-IsEnd v)

next_pair-IsEnd : (s : Bytes) (p : Pair) → next_pair s ≡ some p → IsEnd p.rest
unfolding next_pair
next_pair-IsEnd [] p h = cc
next_pair-IsEnd (c ∷ k) p h = elim (Bool-cases (c == b'\\')) [
  | inl slash ↦ pair_behind-IsEnd k (from_slash k) p (rw slash at h)
  | inr other ↦ cc (rw other at h)
]

pairs_from-Splits : (fuel : ℕ) (s : Bytes) → length s < fuel → Splits s (pairs_from fuel s)
unfolding pairs_from
pairs_from-Splits zero s h = absurd (omega arith)
pairs_from-Splits (suc fuel) s h = elim (Option-cases (next_pair s)) [
  | inl e ↦ rw (e, pairs_from) (torn (next_pair-IsTorn s e))
  | inr (p, e) ↦
      let t = next_pair-Taken s p e in
      let shorter = length-Taken s p t in
      rw (e, pairs_from)
        (pair p.key p.value p.rest t.whole t.key_clean t.value_clean (next_pair-IsEnd s p e)
          (pairs_from-Splits fuel p.rest (omega (arith, shorter))))
]

-- Enough fuel: the pairs are those of the format.
pub pairs_of-Splits : (s : Bytes) → Splits s (pairs_of s)
pairs_of-Splits s = pairs_from-Splits (info_fuel s) s (omega arith)

pub lookup-FirstOf : (key : Bytes) (ps : Pairs) → FirstOf key ps (lookup key ps)
unfolding lookup
lookup-FirstOf key [] = nowhere
lookup-FirstOf key ((k, v) ∷ ps) = elim (Bool-cases (same_key k key)) [
  | inl same ↦ rw same (here ((AreAlike-iff k key).1 ((same_key_iff k key).0 same)))
  | inr other ↦ rw other (
      later
        (λ alike.
          let same : same_key k key ≡ true =
            (same_key_iff k key).1 ((AreAlike-iff k key).0 alike) in
          cc (same, other))
        (lookup-FirstOf key ps))
]

take-begun :
    (n : ℕ) (v : Bytes)
    → (more : Bytes) × (v ≡ take n v ++ more)
      × (length (take n v) ≤ n)
      × ((more ≡ []) ⊎ (length (take n v) ≡ n))
take-begun zero v = (v, refl, omega arith, inr refl)
take-begun (suc n) [] = ([], refl, omega arith, inl refl)
take-begun (suc n) (c ∷ v) =
    let (more, whole, fits, ends) = take-begun n v in
    (
      more,
      ap (c ∷◌) whole,
      omega (arith, fits),
      elim ends [ inl all ↦ inl all | inr full ↦ inr (omega (arith, full)) ],
    )

pub cut_value-Fits : (outlen : ℕ) (o : Option Bytes) → Fits outlen o (cut_value outlen o)
cut_value-Fits zero o = no_buffer refl
cut_value-Fits (suc n) none = absent
cut_value-Fits (suc n) (some v) =
    let (more, whole, fits, ends) = take-begun n v in
    begun (take n v) more whole (omega (arith, fits))
      (elim ends [ inl all ↦ inl all | inr full ↦ inr (omega (arith, full)) ])
