-- ===== src/Text/Paths.antt =====
-- Paths that IsMapChars and IsPathChars accept stay below their directory.
use japlusproxy.Prelude.{
  ◌≡◌, ◌≢◌, refl, and-true, Bytes, codes, Bool, true, false, not, [], ◌∷◌, ◌++◌, arith,
}
use japlusproxy.Text.{
  all_bytes, is_path_char, starts_with, contains, climbs, is_dot_dot, is_map_chars, is_path_chars,
}

starts_with-append : (part rest : Bytes) → starts_with part (part ++ rest) ≡ true
unfolding starts_with
starts_with-append [] rest = refl
starts_with-append (p ∷ part) rest = ground (arith, starts_with-append part rest)

-- strstr finds a part wherever it stands.
contains-append : (before part rest : Bytes) → contains part (before ++ part ++ rest) ≡ true
unfolding contains
contains-append [] [] [] = unfold starts_with in refl
contains-append [] [] (c ∷ rest) = unfold starts_with in refl
contains-append [] (p ∷ part) rest = rw (starts_with-append (p ∷ part) rest) refl
contains-append (c ∷ before) part rest = ground (arith, contains-append before part rest)

not-true : (a : Bool) → not a ≡ true → a ≡ false
not-true true h = cc
not-true false h = refl

-- A path that passes IsPathChars has no byte but letters, digits, `_`, `-`, `/` and `.`, and holds
-- no `../`.
pub is_path_chars-climbs :
    (s before rest : Bytes)
    → is_path_chars s ≡ true
    → (all_bytes is_path_char s ≡ true) × (s ≢ before ++ codes "../" ++ rest)
unfolding is_path_chars
is_path_chars-climbs s before rest h =
    let (bytes, stays) = and-true (all_bytes is_path_char s) (not (climbs s)) h in
    (
      bytes,
      λ e.
          let there : contains (codes "../") s ≡ true =
            rw e (contains-append before (codes "../") rest) in
          let found : climbs s ≡ true = rw there refl in cc (found, not-true (climbs s) stays),
    )

-- A map that passes IsMapChars has no byte but those of a path, holds no `../`, and is not `..`.
pub is_map_chars-climbs :
    (s before rest : Bytes)
    → is_map_chars s ≡ true
    → (all_bytes is_path_char s ≡ true) × (s ≢ before ++ codes "../" ++ rest) × (s ≢ codes "..")
unfolding is_map_chars
is_map_chars-climbs s before rest h =
    let bytes : all_bytes is_path_char s ≡ true = ground arith in
    let stays : not (climbs s) ≡ true = ground arith in
    let path : is_path_chars s ≡ true = unfold is_path_chars in rw (bytes, stays) refl in
    let named : is_dot_dot s ≡ false = ground arith in
    (
      bytes,
      (is_path_chars-climbs s before rest path).1,
      λ e. cc (named, let parent : is_dot_dot s ≡ true = rw e refl in parent),
    )
