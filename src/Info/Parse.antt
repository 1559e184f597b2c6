-- ===== src/Info/Parse.antt =====
-- The pairs that Info_Value and Info_Set see in any string.
pub mod Grammar
pub mod Fuel
pub mod Reads
pub mod Writes
use mathlib.Core.List.{append-nil, append_assoc}
use japlusproxy.Prelude.{
  ℕ, zero, suc, ◌+◌, ◌≤◌, ◌<◌, ◌≡◌, ◌⊎◌, inl, inr, refl, sym, ap, ◌∙◌, Bytes, Option, none, some,
  [], ◌∷◌, ◌++◌, arith, length, length-append, take_all, ◌==◌, Bool-cases,
}
use japlusproxy.Info.{
  Pair, until_slash, from_slash, pair_behind, same_key, next_pair, value_from, copy_others,
  info_fuel, info_value, info_set, cut_value, pair_bytes,
}
use japlusproxy.Info.Pairs.{
  NoSlash, Pairs, AllClean, render, lookup, without, next_pair-render, length-render,
}
use japlusproxy.Info.Laws.{
  update, new_pair, length-without, length-new_pair, length-pair, render-pair, render-append,
  append_pair-render, copy_pair_same, copy_pair_other, AllClean-update, length-update,
}

unfoldable pub pairs_from : ℕ → Bytes → Pairs
pairs_from zero s = []
pairs_from (suc fuel) s = elim (next_pair s) [
  | none ↦ []
  | some p ↦ (p.key, p.value) ∷ pairs_from fuel p.rest
]

-- The pairs of a string, up to the first place where the parser stops.
abbrev pub pairs_of : Bytes → Pairs
pairs_of s = pairs_from (info_fuel s) s

until_slash-NoSlash : (s : Bytes) → NoSlash (until_slash s)
unfolding until_slash
until_slash-NoSlash [] = tt
until_slash-NoSlash (c ∷ s) = elim (Bool-cases (c == b'\\')) [
  | inl e ↦ rw e tt
  | inr e ↦ rw e (ground arith, until_slash-NoSlash s)
]

from_slash-split : (s : Bytes) → s ≡ until_slash s ++ from_slash s
unfolding until_slash from_slash
from_slash-split [] = refl
from_slash-split (c ∷ s) = elim (Bool-cases (c == b'\\')) [
  | inl e ↦ rw e refl
  | inr e ↦ rw e (ap (c ∷◌) (from_slash-split s))
]

-- What the parser takes off the front of a string.
pub record Taken (s : Bytes) (p : Pair) : Type 0 where
  pub whole : s ≡ pair_bytes p.key (p.value ++ p.rest)
  pub key_clean : NoSlash p.key
  pub value_clean : NoSlash p.value

head_slash : (k : Bytes) (c : ℕ) (v : Bytes) → from_slash k ≡ c ∷ v → c ≡ b'\\'
unfolding from_slash
head_slash [] c v h = cc
head_slash (d ∷ k) c v h = elim (Bool-cases (d == b'\\')) [
  | inl e ↦ let same : d ∷ k ≡ c ∷ v = ground arith in ground arith
  | inr e ↦ head_slash k c v (ground arith)
]

behind-Taken :
    (k r : Bytes) (p : Pair) → from_slash k ≡ r → pair_behind k r ≡ some p → Taken (b'\\' ∷ k) p
behind-Taken k [] p e h = cc
behind-Taken k (d ∷ v) p e h =
    let same : record { key = until_slash k; value = until_slash v; rest = from_slash v } ≡ p =
      cc in
    let split : k ≡ until_slash k ++ b'\\' ∷ (until_slash v ++ from_slash v) =
      from_slash-split k
      ∙ ap (until_slash k ++◌) (rw (e, head_slash k d v e) (ap (b'\\' ∷◌) (from_slash-split v))) in
    let here : Taken (b'\\' ∷ k)
        (record { key = until_slash k; value = until_slash v; rest = from_slash v }) =
      record {
        whole = ap (b'\\' ∷◌) split;
        key_clean = until_slash-NoSlash k;
        value_clean = until_slash-NoSlash v;
      } in
    rw same at here

pub next_pair-Taken : (s : Bytes) (p : Pair) → next_pair s ≡ some p → Taken s p
unfolding next_pair
next_pair-Taken [] p h = cc
next_pair-Taken (c ∷ k) p h = elim (Bool-cases (c == b'\\')) [
  | inl e ↦
      let slash : c ≡ b'\\' = ground arith in
      rw slash (behind-Taken k (from_slash k) p refl (ground arith))
  | inr e ↦ absurd (ground arith)
]

pub length-Taken :
    (s : Bytes) (p : Pair)
    → Taken s p
    → length s ≡ length (pair_bytes p.key p.value) + length p.rest
length-Taken s p t =
    ap length t.whole
    ∙ omega (
      arith,
      length-append p.key (b'\\' ∷ (p.value ++ p.rest)),
      length-append p.value p.rest,
      length-append p.key (b'\\' ∷ p.value),
    )

pub Option-cases : {A : Type 0} → (o : Option A) → (o ≡ none) ⊎ ((x : A) × (o ≡ some x))
Option-cases none = inl refl
Option-cases (some x) = inr (x, refl)

pub pairs_from-AllClean : (fuel : ℕ) (s : Bytes) → AllClean (pairs_from fuel s)
unfolding pairs_from
pairs_from-AllClean zero s = tt
pairs_from-AllClean (suc fuel) s = elim (Option-cases (next_pair s)) [
  | inl e ↦ rw (e, AllClean, pairs_from) tt
  | inr (p, e) ↦
      let t = next_pair-Taken s p e in
      rw (e, AllClean, pairs_from) (t.key_clean, t.value_clean, pairs_from-AllClean fuel p.rest)
]

pub length-pairs_from : (fuel : ℕ) (s : Bytes) → length (render (pairs_from fuel s)) ≤ length s
unfolding pairs_from
length-pairs_from zero s = omega arith
length-pairs_from (suc fuel) s = elim (Option-cases (next_pair s)) [
  | inl e ↦ rw (e, length, render, pairs_from) (omega arith)
  | inr (p, e) ↦
      rw (e, length, render, pairs_from)
        (omega (
          arith,
          length-Taken s p (next_pair-Taken s p e),
          length-pair p.key p.value (pairs_from fuel p.rest),
          length-pairs_from fuel p.rest,
        ))
]

pairs_from-render :
    (ps : Pairs) (fuel : ℕ) → AllClean ps → length ps < fuel → pairs_from fuel (render ps) ≡ ps
unfolding pairs_from
pairs_from-render ps zero c h = absurd (omega arith)
pairs_from-render [] (suc fuel) c h = unfold next_pair in refl
pairs_from-render ((k, v) ∷ ps) (suc fuel) c h =
    rw (next_pair-render k v ps c.0 c.1, pairs_from)
      (ap ((k, v) ∷◌) (pairs_from-render ps fuel c.2 (omega arith)))

-- A list of pairs that hold no backslash is read back from its printed form.
pub pairs_of-render : (ps : Pairs) → AllClean ps → pairs_of (render ps) ≡ ps
pairs_of-render ps c =
    pairs_from-render ps (info_fuel (render ps)) c (omega (arith, length-render ps))

pub pairs_of-AllClean : (s : Bytes) → AllClean (pairs_of s)
pairs_of-AllClean s = pairs_from-AllClean (info_fuel s) s
