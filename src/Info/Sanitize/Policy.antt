-- ===== src/Info/Sanitize/Policy.antt =====
-- What the values under the keys of SanitizeUserinfo should be, described without its tests.
use japlusproxy.Prelude.{
  ◌≤◌, ◌<◌, ◌≡◌, ◌≢◌, refl, Bytes, codes, true, false, [], ◌∷◌, ◌++◌, arith, length,
}
use japlusproxy.Text.{between}
use japlusproxy.Text.Classes.{
  AllOf, IsWord, IsPath, IsPrintable, AreAlike, AllOf-all_bytes, is_token_chars-AllOf,
  is_path_chars-AllOf, str_case_eq-apart,
}
use japlusproxy.Info.Names.{is_ascii_clean, clean_name}
use japlusproxy.Info.Names.Clean.{AllKept, clean_name-AllKept}
use japlusproxy.Info.Sanitize.{
  is_bad_model, is_bad_name, is_bad_class, is_bad_saber, same_bytes, value_size,
}

-- At most 63 printable ASCII bytes, and none of the four models that are not for players.
abbrev pub IsModel : Bytes → Type 0
IsModel v =
    (length v < 64)
    × AllOf IsPrintable v
    × (AreAlike v (codes "jedi_/red") → ⊥)
    × (AreAlike v (codes "jedi_/blue") → ⊥)
    × (AreAlike v (codes "rancor") → ⊥)
    × (AreAlike v (codes "wampa") → ⊥)

abbrev pub IsCleanName : Bytes → Type 0
IsCleanName v = AllKept v × (0 < length v) × (length v ≤ 63)

-- At most 63 letters, digits, `_` and `-`.
abbrev pub IsClass : Bytes → Type 0
IsClass v = (length v < 64) × AllOf IsWord v

-- At most 63 letters, digits, `_`, `-`, `/` and `.`, with no `../`.
abbrev pub IsSaber : Bytes → Type 0
IsSaber v =
    (length v < 64) × AllOf IsPath v × ((before rest : Bytes) → v ≢ before ++ codes "../" ++ rest)

same_bytes-eq : (a b : Bytes) → same_bytes a b ≡ true → a ≡ b
unfolding same_bytes
same_bytes-eq [] [] h = refl
same_bytes-eq (x ∷ a) (y ∷ b) h = ground (arith, same_bytes-eq a b)
same_bytes-eq [] (y ∷ b) h = cc
same_bytes-eq (x ∷ a) [] h = cc

is_ascii_clean-AllOf : (v : Bytes) → is_ascii_clean v ≡ true → AllOf IsPrintable v
unfolding is_ascii_clean
is_ascii_clean-AllOf v h =
    AllOf-all_bytes (between 32 126) IsPrintable v (λ c t. (ground arith, ground arith)) h

pub is_bad_model-IsModel : (v : Bytes) → is_bad_model v ≡ false → IsModel v
unfolding is_bad_model
is_bad_model-IsModel v h = (
  ground arith,
  is_ascii_clean-AllOf v (ground arith),
  str_case_eq-apart v (codes "jedi_/red") [] (omega arith) (ground arith),
  str_case_eq-apart v (codes "jedi_/blue") [] (omega arith) (ground arith),
  str_case_eq-apart v (codes "rancor") [] (omega arith) (ground arith),
  str_case_eq-apart v (codes "wampa") [] (omega arith) (ground arith),
)

pub is_bad_name-IsCleanName : (v : Bytes) → is_bad_name v ≡ false → IsCleanName v
is_bad_name-IsCleanName v h =
    let same : v ≡ clean_name v value_size =
      same_bytes-eq v (clean_name v value_size) (ground arith) in
    rw same (clean_name-AllKept v value_size (omega arith))

pub is_bad_class-IsClass : (v : Bytes) → is_bad_class v ≡ false → IsClass v
unfolding is_bad_class
is_bad_class-IsClass [] h = (omega arith, tt)
is_bad_class-IsClass (c ∷ s) h = (ground arith, is_token_chars-AllOf (c ∷ s) (ground arith))

pub is_bad_saber-IsSaber : (v : Bytes) → is_bad_saber v ≡ false → IsSaber v
unfolding is_bad_saber
is_bad_saber-IsSaber v h =
    let (bytes, stays) = is_path_chars-AllOf v (ground arith) in (ground arith, bytes, stays)
