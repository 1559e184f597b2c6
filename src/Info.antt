-- ===== src/Info.antt =====
-- Info_Value and Info_Set of proxy/proxy.c, on strings `\key\value\key\value`. Both loops take
-- fuel; `info_fuel`, one more than the length of the string, is enough, since each round leaves at
-- least two bytes behind.
pub mod Pairs
pub mod Laws
pub mod Parse
pub mod Map
pub mod Names
pub mod Sanitize
use japlusproxy.Prelude.{
  ℕ, zero, suc, ◌+◌, ◌-◌, Bytes, Bool, true, false, ◌&&◌, Option, none, some, List, [], ◌∷◌, ◌++◌,
  length, take, ltb, ◌==◌, if◌then◌else◌,
}
use japlusproxy.Text.{fold_case}

-- strchr(s, '\\'): what stands before it, and the string from it on, empty if there is none.
unfoldable pub until_slash : Bytes → Bytes
until_slash [] = []
until_slash (c ∷ s) = let rest = until_slash s in if c == b'\\' then [] else c ∷ rest

unfoldable pub from_slash : Bytes → Bytes
from_slash [] = []
from_slash (c ∷ s) = let rest = from_slash s in if c == b'\\' then c ∷ s else rest

-- The loop over the bytes of two keys of one length.
abbrev pub eq_fold : Bytes → Bytes → Bool
eq_fold [] b = true
eq_fold (x ∷ a) [] = true
eq_fold (x ∷ a) (y ∷ b) = fold_case x == fold_case y && eq_fold a b

unfoldable pub same_key : Bytes → Bytes → Bool
same_key a b = length a == length b && eq_fold a b

-- The first pair of an info string, and the string behind it; none where the loops end.
pub record Pair : Type 0 where
  pub key : Bytes
  pub value : Bytes
  pub rest : Bytes

abbrev pub pair_behind : Bytes → Bytes → Option Pair
pair_behind k [] = none
pair_behind k (slash ∷ v) =
    some (record { key = until_slash k; value = until_slash v; rest = from_slash v })

unfoldable pub next_pair : Bytes → Option Pair
next_pair [] = none
next_pair (c ∷ k) = if c == b'\\' then pair_behind k (from_slash k) else none

unfoldable pub value_from : ℕ → Bytes → Bytes → Option Bytes
value_from zero key info = none
value_from (suc fuel) key info = elim (next_pair info) [
  | none ↦ none
  | some p ↦ if same_key p.key key then some p.value else value_from fuel key p.rest
]

abbrev pub info_fuel : Bytes → ℕ
info_fuel info = suc (length info)

-- What the buffer takes: nothing if it has no byte, and else what leaves room for the NUL.
abbrev pub cut_value : ℕ → Option Bytes → Option Bytes
cut_value zero o = none
cut_value (suc n) none = none
cut_value (suc n) (some v) = some (take n v)

-- The value, cut to the buffer, or none where the function returns 0.
unfoldable pub info_value : Bytes → Bytes → ℕ → Option Bytes
info_value info key outlen = cut_value outlen (value_from (info_fuel info) key info)

abbrev pub pair_bytes : Bytes → Bytes → Bytes
pair_bytes k v = b'\\' ∷ k ++ b'\\' ∷ v

-- sizeof(tmp)
abbrev tmp_size : ℕ
tmp_size = 2048

unfoldable pub copy_pair : Bytes → Pair → Bytes → Bytes
copy_pair key p tmp =
    if same_key p.key key
    then tmp
    else if ltb (length tmp + length (pair_bytes p.key p.value)) (tmp_size - 1)
    then tmp ++ pair_bytes p.key p.value
    else tmp

unfoldable pub copy_others : ℕ → Bytes → Bytes → Bytes → Bytes
copy_others zero key info tmp = tmp
copy_others (suc fuel) key info tmp = elim (next_pair info) [
  | none ↦ tmp
  | some p ↦ copy_others fuel key p.rest (copy_pair key p tmp)
]

unfoldable pub append_pair : ℕ → Bytes → Bytes → Bytes → Bytes
append_pair infolen key [] tmp = tmp
append_pair infolen key (v ∷ value) tmp =
    let need = length tmp + (1 + length key + 1 + length (v ∷ value)) in
    if ltb need (infolen - 1) && ltb need (tmp_size - 1)
    then tmp ++ pair_bytes key (v ∷ value)
    else tmp

unfoldable pub info_set : Bytes → ℕ → Bytes → Bytes → Bytes
info_set info infolen key value =
    take (infolen - 1) (append_pair infolen key value (copy_others (info_fuel info) key info []))
