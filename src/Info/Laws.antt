-- ===== src/Info/Laws.antt =====
-- Info_Set on printed lists of pairs, and what a key reads as after it.
use mathlib.Core.List.{append-nil, append_assoc}
use japlusproxy.Prelude.{
  ℕ, ◌+◌, ◌≤◌, ◌<◌, ◌≡◌, ◌↔◌, refl, sym, ap, ◌∙◌, inl, inr, Bytes, true, false, ◌&&◌, Option, none,
  some, [], ◌∷◌, ◌++◌, map, arith, length, length-append, ltb, lt→ltb, ◌==◌, Bool-cases,
}
use japlusproxy.Text.{fold_case}
use japlusproxy.Info.{eq_fold, same_key, copy_pair, append_pair, pair_bytes}
use japlusproxy.Info.Pairs.{NoSlash, Pairs, AllClean, render, lookup, without}

-- Two keys are the same when they are equal up to case.
key_round :
    (x y : ℕ) (a b : Bytes)
    → ((length a == length b && eq_fold a b) ≡ true) ↔ (map fold_case a ≡ map fold_case b)
    → ((length (x ∷ a) == length (y ∷ b) && (x == y && eq_fold a b)) ≡ true)
      ↔ (x ∷ map fold_case a ≡ y ∷ map fold_case b)
key_round x y a b ih = (
  λ h. cc (ih.0 (ground arith), let same : x ≡ y = ground arith in same),
  λ h. let rest = ih.1 (cc) in let same : x ≡ y = cc in ground arith,
)

pub same_key_iff : (a b : Bytes) → (same_key a b ≡ true) ↔ (map fold_case a ≡ map fold_case b)
unfolding same_key
same_key_iff [] [] = (λ h. refl, λ h. refl)
same_key_iff [] (y ∷ b) = (λ h. absurd (ground arith), λ h. cc)
same_key_iff (x ∷ a) [] = (λ h. absurd (ground arith), λ h. cc)
same_key_iff (x ∷ a) (y ∷ b) = key_round (fold_case x) (fold_case y) a b (same_key_iff a b)

same_key_refl : (a : Bytes) → same_key a a ≡ true
same_key_refl a = (same_key_iff a a).1 refl

pub render-append : (ps qs : Pairs) → render (ps ++ qs) ≡ render ps ++ render qs
render-append [] qs = refl
render-append ((k, v) ∷ ps) qs = simp (render-append ps qs, append_assoc)

-- The string that is set: nothing for an empty value.
abbrev pub new_pair : Bytes → Bytes → Pairs
new_pair key [] = []
new_pair key (c ∷ value) = (key, c ∷ value) ∷ []

pub length-pair :
    (k v : Bytes) (ps : Pairs)
    → length (render ((k, v) ∷ ps)) ≡ length (pair_bytes k v) + length (render ps)
length-pair k v ps = omega (
  arith,
  length-append k (b'\\' ∷ (v ++ render ps)),
  length-append v (render ps),
  length-append k (b'\\' ∷ v),
)

pub length-without :
    (key : Bytes) (ps : Pairs) → length (render (without key ps)) ≤ length (render ps)
unfolding without
length-without key [] = omega arith
length-without key ((k, v) ∷ ps) = elim (Bool-cases (same_key k key)) [
  | inl same ↦ rw same (omega (arith, length-pair k v ps, length-without key ps))
  | inr other ↦
      rw other
        (omega (arith, length-pair k v ps, length-pair k v (without key ps), length-without key ps))
]

pub copy_pair_same :
    (key k v rest tmp : Bytes)
    → same_key k key ≡ true
    → copy_pair key (record { key = k; value = v; rest = rest }) tmp ≡ tmp
unfolding copy_pair
copy_pair_same key k v rest tmp h = rw h

pub copy_pair_other :
    (key k v rest tmp : Bytes)
    → same_key k key ≡ false
    → length tmp + length (pair_bytes k v) < 2047
    → copy_pair key (record { key = k; value = v; rest = rest }) tmp ≡ tmp ++ pair_bytes k v
unfolding copy_pair
copy_pair_other key k v rest tmp h fit = rw (h, lt→ltb _ _ fit)

pub render-pair : (k v : Bytes) (ps : Pairs) → pair_bytes k v ++ render ps ≡ render ((k, v) ∷ ps)
render-pair k v ps = simp append_assoc

-- What the list becomes.
abbrev pub update : Bytes → Bytes → Pairs → Pairs
update key value ps = without key ps ++ new_pair key value

pub length-new_pair :
    (key value : Bytes) → length (render (new_pair key value)) ≤ 2 + length key + length value
length-new_pair key [] = omega arith
length-new_pair key (c ∷ value) =
    omega (arith, length-append key (b'\\' ∷ ((c ∷ value) ++ [])), length-append value [])

pub append_pair-render :
    (key value tmp : Bytes)
    → length tmp + (2 + length key + length value) < 2047
    → append_pair 2048 key value tmp ≡ tmp ++ render (new_pair key value)
unfolding append_pair
append_pair-render key [] tmp h = sym (append-nil tmp)
append_pair-render key (c ∷ value) tmp h =
    let fits : ltb (length tmp + (1 + length key + 1 + length (c ∷ value))) 2047 ≡ true =
      lt→ltb _ 2047 (omega arith) in
    rw fits (ap (λ v. tmp ++ pair_bytes key v) (sym (append-nil (c ∷ value))))

AllClean-without : (key : Bytes) (ps : Pairs) → AllClean ps → AllClean (without key ps)
unfolding without
AllClean-without key [] c = tt
AllClean-without key ((k, v) ∷ ps) c = ground (arith, AllClean-without key ps c.2)

AllClean-append : (ps qs : Pairs) → AllClean ps → AllClean qs → AllClean (ps ++ qs)
AllClean-append [] qs c d = d
AllClean-append ((k, v) ∷ ps) qs c d = (c.0, c.1, AllClean-append ps qs c.2 d)

pub AllClean-update :
    (key value : Bytes) (ps : Pairs)
    → NoSlash key
    → NoSlash value
    → AllClean ps
    → AllClean (update key value ps)
AllClean-update key [] ps nk nv c =
    AllClean-append (without key ps) [] (AllClean-without key ps c) tt
AllClean-update key (b ∷ value) ps nk nv c =
    AllClean-append (without key ps) ((key, b ∷ value) ∷ []) (AllClean-without key ps c)
      (nk, nv, tt)

abbrev or_else : Option Bytes → Option Bytes → Option Bytes
or_else none d = d
or_else (some v) d = some v

or_else-none : (o : Option Bytes) → or_else o none ≡ o
or_else-none none = refl
or_else-none (some v) = refl

lookup-append :
    (j : Bytes) (ps qs : Pairs) → lookup j (ps ++ qs) ≡ or_else (lookup j ps) (lookup j qs)
unfolding lookup
lookup-append j [] qs = refl
lookup-append j ((k, v) ∷ ps) qs = ground (arith, lookup-append j ps qs)

lookup-without_self : (key : Bytes) (ps : Pairs) → lookup key (without key ps) ≡ none
unfolding lookup without
lookup-without_self key [] = refl
lookup-without_self key ((k, v) ∷ ps) = ground (arith, lookup-without_self key ps)

-- A key that is not `key` is not among those that are the same as `key`.
other_key :
    (k key j : Bytes) → same_key k key ≡ true → same_key key j ≡ false → same_key k j ≡ false
other_key k key j h ne = elim (Bool-cases (same_key k j)) [
  | inr no_match ↦ no_match
  | inl both ↦ absurd (
      let joined : same_key key j ≡ true =
        (same_key_iff key j).1 (sym ((same_key_iff k key).0 h) ∙ (same_key_iff k j).0 both) in
      cc)
]

lookup-without_other :
    (key j : Bytes) (ps : Pairs) → same_key key j ≡ false → lookup j (without key ps) ≡ lookup j ps
unfolding lookup without
lookup-without_other key j [] ne = refl
lookup-without_other key j ((k, v) ∷ ps) ne = elim (Bool-cases (same_key k key)) [
  | inl same ↦ rw (same, other_key k key j same ne) (lookup-without_other key j ps ne)
  | inr other ↦ rw other (rw (lookup-without_other key j ps ne))
]

abbrev pub some_value : Bytes → Option Bytes
some_value [] = none
some_value (c ∷ value) = some (c ∷ value)

pub lookup-update_self :
    (key value : Bytes) (ps : Pairs) → lookup key (update key value ps) ≡ some_value value
lookup-update_self key [] ps = rw (lookup-append, lookup-without_self) (unfold lookup in refl)
lookup-update_self key (c ∷ value) ps =
    rw (lookup-append, lookup-without_self) (unfold lookup in rw same_key_refl)

pub lookup-update_other :
    (key j value : Bytes) (ps : Pairs)
    → same_key key j ≡ false
    → lookup j (update key value ps) ≡ lookup j ps
unfolding lookup
lookup-update_other key j [] ps ne =
    lookup-append j (without key ps) []
    ∙ ap (λ x. or_else x none) (lookup-without_other key j ps ne)
    ∙ or_else-none (lookup j ps)
lookup-update_other key j (c ∷ value) ps ne =
    lookup-append j (without key ps) ((key, c ∷ value) ∷ [])
    ∙ rw (lookup-without_other key j ps ne) (rw ne (or_else-none (lookup j ps)))

pub length-update :
    (key value : Bytes) (ps : Pairs)
    → length (render (update key value ps)) ≤ length (render ps) + (2 + length key + length value)
length-update key value ps =
    rw (render-append, length-append)
      (omega (arith, length-without key ps, length-new_pair key value))
