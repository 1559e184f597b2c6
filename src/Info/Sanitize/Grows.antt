-- ===== src/Info/Sanitize/Grows.antt =====
-- How much longer SanitizeUserinfo can make a userinfo: a bad value leaves before a new one comes.
use japlusproxy.Prelude.{
  ℕ, ◌+◌, ◌-◌, ◌≤◌, ◌<◌, ◌≡◌, inl, inr, refl, Bytes, true, Option, none, some, List, [], ◌∷◌, arith,
  length, length-append, Bool-cases, take, if-holds,
}
use japlusproxy.Info.{same_key, info_set, cut_value}
use japlusproxy.Info.Pairs.{Pairs, render, lookup, without}
use japlusproxy.Info.Laws.{length-pair, length-without, length-new_pair, new_pair, render-append}
use japlusproxy.Info.Parse.{pairs_of, length-pairs_from}
use japlusproxy.Info.{info_fuel, pair_bytes}
use japlusproxy.Info.Names.Clean.{clean_name-AllKept}
use japlusproxy.Info.Parse.Reads.{info_value_lem}
use japlusproxy.Info.Parse.Writes.{info_set_lem}
use japlusproxy.Info.Sanitize.{
  Step, Fixed, steps, fix_value, fix_key, run_steps, value_size, userinfo_size,
}

same_key-length : (a b : Bytes) → same_key a b ≡ true → length a ≡ length b
unfolding same_key
same_key-length a b h = ground arith

length-pair_bytes : (k v : Bytes) → length (pair_bytes k v) ≡ 2 + length k + length v
length-pair_bytes k v = omega (arith, length-append k (b'\\' ∷ v))

-- The pair that is read under a key is among those that are taken out.
length-without_found :
    (key : Bytes) (ps : Pairs) (w : Bytes)
    → lookup key ps ≡ some w
    → length (render (without key ps)) + (2 + length key + length w) ≤ length (render ps)
unfolding lookup without
length-without_found key [] w h = cc
length-without_found key ((k, v) ∷ ps) w h = elim (Bool-cases (same_key k key)) [
  | inl same ↦
      let found : v ≡ w = ground arith in
      rw (same, ← found)
        (omega (
          arith,
          length-pair k v ps,
          length-pair_bytes k v,
          length-without key ps,
          same_key-length k key same,
        ))
  | inr other ↦
      let later : lookup key ps ≡ some w = ground arith in
      rw other (
        omega (
          arith,
          length-pair k v ps,
          length-pair k v (without key ps),
          length-without_found key ps w later,
        ))
]

module _ (s : Step) (m : ℕ) (short : (v : Bytes) → length (s.new v) ≤ m) (ui : Bytes)
    (fit : length ui + (2 + length s.key + m) < 2047) where
  length-replaced :
      (v w : Bytes)
      → lookup s.key (pairs_of ui) ≡ some w
      → length (info_set ui userinfo_size s.key (s.new v)) ≤ length ui + m
  length-replaced v w found =
      let ps = pairs_of ui in
      rw
        (
          info_set_lem ui s.key (s.new v) (omega (arith, short v)),
          render-append (without s.key ps) (new_pair s.key (s.new v)),
          length-append,
        )
        (omega (
          arith,
          length-without_found s.key ps w found,
          length-new_pair s.key (s.new v),
          length-pairs_from (info_fuel ui) ui,
          short v,
        ))

  length-on :
      (o : Option Bytes)
      → lookup s.key (pairs_of ui) ≡ o
      → length (fix_value s.key s.bad s.new ui (cut_value value_size o)).0 ≤ length ui + m
  length-on none e = omega arith
  length-on (some w) e =
      let v = take (value_size - 1) w in
      if-holds (λ (r : Fixed). length r.0 ≤ length ui + m) (s.bad v) (λ _. length-replaced v w e)
        (λ _. omega arith)

  pub length-fix_key : length (fix_key s.key s.bad s.new ui).0 ≤ length ui + m
  unfolding fix_key
  length-fix_key =
      rw (info_value_lem ui s.key value_size) (length-on (lookup s.key (pairs_of ui)) refl)

-- The new values of the steps have at most these lengths.
abbrev AllShort : List Step → List ℕ → Type 0
AllShort [] [] = Unit
AllShort (s ∷ todo) (m ∷ most) =
    (length s.key ≤ 12) × ((v : Bytes) → length (s.new v) ≤ m) × AllShort todo most
AllShort _ _ = ⊥

abbrev total : List ℕ → ℕ
total [] = 0
total (m ∷ most) = m + total most

length-run_steps :
    (todo : List Step) (most : List ℕ) (ui : Bytes)
    → AllShort todo most
    → length ui + total most + 14 < 2047
    → length (run_steps todo ui).0 ≤ length ui + total most
unfolding run_steps
length-run_steps [] [] ui short fit = omega arith
length-run_steps [] (m ∷ most) ui short fit = absurd short
length-run_steps (s ∷ todo) [] ui short fit = absurd short
length-run_steps (s ∷ todo) (m ∷ most) ui (key, new, short) fit =
    let first = length-fix_key s m new ui (omega arith) in
    let rest =
      length-run_steps todo most (fix_key s.key s.bad s.new ui).0 short (omega (arith, first)) in
    omega (arith, first, rest)

-- The steps of SanitizeUserinfo make a string at most 89 bytes longer: the model by 4, the force
-- powers by 22 and the name by 63.
pub length-steps : (ui : Bytes) → length ui < 1024 → length (run_steps steps ui).0 ≤ length ui + 89
length-steps ui fit =
    length-run_steps steps (4 ∷ 22 ∷ 63 ∷ 0 ∷ 0 ∷ 0 ∷ []) ui
      (
        omega arith,
        λ v. omega arith,
        (
          omega arith,
          λ v. omega arith,
          (
            omega arith,
            λ v. (clean_name-AllKept v value_size (omega arith)).2,
            (
              omega arith,
              λ v. omega arith,
              (omega arith, λ v. omega arith, (omega arith, λ v. omega arith, tt)),
            ),
          ),
        ),
      )
      (omega arith)
