-- ===== src/Info/Parse/Reads.antt =====
-- Info_Value on any string.
use japlusproxy.Prelude.{ℕ, zero, suc, ◌≡◌, inl, inr, refl, ap, ◌∙◌, Bytes}
use japlusproxy.Info.{next_pair, value_from, info_fuel, info_value, cut_value}
use japlusproxy.Info.Pairs.{Pairs, AllClean, render, lookup}
use japlusproxy.Info.Parse.Grammar.{IsReading, pairs_of-Splits, lookup-FirstOf, cut_value-Fits}
use japlusproxy.Info.Parse.{pairs_from, pairs_of, Option-cases, pairs_of-render}

-- Reading and parsing stop together, whatever the fuel.
value_from-pairs_from :
    (fuel : ℕ) (key s : Bytes) → value_from fuel key s ≡ lookup key (pairs_from fuel s)
unfolding pairs_from value_from lookup
value_from-pairs_from zero key s = refl
value_from-pairs_from (suc fuel) key s = elim (Option-cases (next_pair s)) [
  | inl e ↦ rw (e, value_from, pairs_from) refl
  | inr (p, e) ↦ rw (e, value_from, pairs_from) (rw (value_from-pairs_from fuel key p.rest))
]

-- Info_Value by the lookup in the parsed pairs.
pub info_value_lem :
    (s key : Bytes) (outlen : ℕ)
    → info_value s key outlen ≡ cut_value outlen (lookup key (pairs_of s))
unfolding info_value
info_value_lem s key outlen = ap (cut_value outlen) (value_from-pairs_from (info_fuel s) key s)

-- Of a printed list of pairs that hold no backslash, it reads the value that the list has.
info_value-lookup :
    (ps : Pairs) (key : Bytes) (outlen : ℕ)
    → AllClean ps
    → info_value (render ps) key outlen ≡ cut_value outlen (lookup key ps)
info_value-lookup ps key outlen c =
    info_value_lem (render ps) key outlen
    ∙ ap (λ qs. cut_value outlen (lookup key qs)) (pairs_of-render ps c)

-- Any string splits into pairs as its format has it, and Info_Value reads the value of the first pair
-- whose key is `key` up to case: as much of it as leaves room for the NUL in a buffer of `outlen`
-- bytes. It returns 0 if there is no such pair, or if the buffer has no byte.
pub info_value-IsReading :
    (s key : Bytes) (outlen : ℕ) → IsReading s key outlen (info_value s key outlen)
info_value-IsReading s key outlen = rw (info_value_lem s key outlen) (record {
  pairs = pairs_of s;
  value = lookup key (pairs_of s);
  splits = pairs_of-Splits s;
  first = lookup-FirstOf key (pairs_of s);
  fits = cut_value-Fits outlen (lookup key (pairs_of s));
})
