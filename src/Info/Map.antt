-- ===== src/Info/Map.antt =====
-- What an info string stands for: a value for each key up to case. The order of the pairs, the case
-- of the keys and what the first pair of a key hides are forgotten.
pub mod Runs
use mathlib.Core.Quot
use mathlib.Core.Quot.{Quot, Quot-set}
use japlusproxy.Prelude.{
  ℕ, ◌+◌, ◌<◌, ◌≡◌, ◌↔◌, refl, sym, ap, ◌∙◌, inl, inr, Bytes, Bool, true, false, Option, none, some,
  List, [], ◌∷◌, arith, length, Bool-cases, if◌then◌else◌,
}
use japlusproxy.Text.{fold_case}
use japlusproxy.Info.{same_key, info_set, info_value, cut_value}
use japlusproxy.Info.Pairs.{NoSlash, Pairs, lookup}
use japlusproxy.Info.Laws.{
  same_key_iff, update, some_value, lookup-update_self, lookup-update_other,
}
use japlusproxy.Info.Parse.{pairs_of}
use japlusproxy.Info.Parse.Reads.{info_value_lem}
use japlusproxy.Info.Parse.Writes.{pairs_of-info_set}

same_key_cong : (x k q : Bytes) → same_key k q ≡ true → same_key x k ≡ same_key x q
same_key_cong x k q h =
    let folded = (same_key_iff k q).0 h in
    elim (Bool-cases (same_key x k)) [
      | inl yes_k ↦ yes_k ∙ sym ((same_key_iff x q).1 ((same_key_iff x k).0 yes_k ∙ folded))
      | inr no_k ↦ elim (Bool-cases (same_key x q)) [
        | inr no_q ↦ no_k ∙ sym no_q
        | inl yes_q ↦
            let yes_k : same_key x k ≡ true =
              (same_key_iff x k).1 ((same_key_iff x q).0 yes_q ∙ sym folded) in
            cc yes_k
      ]
    ]

pub same_key_comm : (j k : Bytes) → same_key j k ≡ same_key k j
same_key_comm j k = elim (Bool-cases (same_key j k)) [
  | inl yes_j ↦ yes_j ∙ sym ((same_key_iff k j).1 (sym ((same_key_iff j k).0 yes_j)))
  | inr no_j ↦ elim (Bool-cases (same_key k j)) [
    | inr no_k ↦ no_j ∙ sym no_k
    | inl yes_k ↦
        let yes_j : same_key j k ≡ true = (same_key_iff j k).1 (sym ((same_key_iff k j).0 yes_k)) in
        cc yes_j
  ]
]

lookup_cong : (k q : Bytes) (ps : Pairs) → same_key k q ≡ true → lookup k ps ≡ lookup q ps
unfolding lookup
lookup_cong k q [] h = refl
lookup_cong k q ((x, v) ∷ ps) h = rw (same_key_cong x k q h, lookup_cong k q ps h) refl

-- What any key reads as after an update.
lookup-update :
    (q key value : Bytes) (ps : Pairs)
    → lookup q (update key value ps) ≡ (if same_key key q then some_value value else lookup q ps)
lookup-update q key value ps = elim (Bool-cases (same_key key q)) [
  | inl same ↦
      rw same (sym (lookup_cong key q (update key value ps) same) ∙ lookup-update_self key value ps)
  | inr other ↦ rw other (lookup-update_other key q value ps other)
]

-- Two lists of pairs read alike.
abbrev pub SameReads : Pairs → Pairs → Type 0
SameReads ps qs = (k : Bytes) → lookup k ps ≡ lookup k qs

abbrev pub InfoMap : Type 0
InfoMap = Quot SameReads

pub Option-Bytes_set : IsSet (Option Bytes)
Option-Bytes_set = hlevel

unfoldable pub read : Bytes → InfoMap → Option Bytes
read key = Quot.lift Option-Bytes_set (lookup key) (λ ps qs h. h key)

pub SameReads-update :
    (key value : Bytes) (ps qs : Pairs)
    → SameReads ps qs
    → SameReads (update key value ps) (update key value qs)
SameReads-update key value ps qs h q =
    rw (lookup-update q key value ps, lookup-update q key value qs, h q) refl

unfoldable pub put : Bytes → Bytes → InfoMap → InfoMap
put key value =
    Quot.lift Quot-set (λ ps. Quot.mk (update key value ps))
      (λ ps qs h. Quot.sound (SameReads-update key value ps qs h))

read-put :
    (q key value : Bytes) (m : InfoMap)
    → read q (put key value m) ≡ (if same_key key q then some_value value else read q m)
unfolding read put
read-put q key value = Quot.ind (λ m. Option-Bytes_set _ _) (λ ps. lookup-update q key value ps)

-- The order of two settings of different keys does not matter.
pub put_comm :
    (j v k w : Bytes) (m : InfoMap)
    → same_key j k ≡ false
    → put j v (put k w m) ≡ put k w (put j v m)
unfolding put
put_comm j v k w m apart =
    Quot.ind (λ x. Quot-set (put j v (put k w x)) (put k w (put j v x)))
      (λ ps. Quot.sound (same ps)) m
  where
    same : (ps : Pairs) → SameReads (update j v (update k w ps)) (update k w (update j v ps))
    same ps q =
        rw
          (
            lookup-update q j v (update k w ps),
            lookup-update q k w ps,
            lookup-update q k w (update j v ps),
            lookup-update q j v ps,
          )
          (elim (Bool-cases (same_key j q)) [
            | inr other ↦ rw other refl
            | inl here ↦ rw (here, ← same_key_cong k j q here, same_key_comm k j, apart) refl
          ])

-- What a string stands for.
abbrev pub contents : Bytes → InfoMap
contents s = Quot.mk (pairs_of s)

pub contents-info_set :
    (s key value : Bytes)
    → NoSlash key
    → NoSlash value
    → length s + (2 + length key + length value) < 2047
    → contents (info_set s 2048 key value) ≡ put key value (contents s)
unfolding put
contents-info_set s key value nk nv fit = ap Quot.mk (pairs_of-info_set s key value nk nv fit)

pub info_value-contents :
    (s key : Bytes) (outlen : ℕ)
    → info_value s key outlen ≡ cut_value outlen (read key (contents s))
unfolding read
info_value-contents s key outlen = info_value_lem s key outlen
