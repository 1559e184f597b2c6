-- ===== src/Text.antt =====
-- The character tests of proxy/proxy.c. A C string is the list of its bytes before the NUL, so a
-- read at its end gives 0. Bytes above 127 are negative as `char`; like the code's comparisons, the
-- ones below put them in none of the ranges.
pub mod Tests
pub mod Case
pub mod Number
pub mod Paths
pub mod Classes
use japlusproxy.Prelude.{
  ℕ, zero, suc, ◌+◌, ◌-◌, Bytes, codes, Bool, true, false, not, ◌&&◌, ◌||◌, List, [], ◌∷◌, get_or,
  ◌==◌, leb, if◌then◌else◌,
}

abbrev pub tail : Bytes → Bytes
tail [] = []
tail (c ∷ s) = s

abbrev pub between : ℕ → ℕ → ℕ → Bool
between lo hi c = leb lo c && leb c hi

unfoldable pub has_crlf : Bytes → Bool
has_crlf [] = false
has_crlf (c ∷ s) = (c == b'\r' || c == b'\n') || has_crlf s

unfoldable pub has_chaining : Bytes → Bool
has_chaining [] = false
has_chaining (c ∷ s) = c == b';' || has_chaining s

abbrev pub is_word_char : ℕ → Bool
is_word_char c =
    between b'a' b'z' c || between b'A' b'Z' c || between b'0' b'9' c || c == b'_' || c == b'-'

abbrev pub is_path_char : ℕ → Bool
is_path_char c = is_word_char c || c == b'/' || c == b'.'

abbrev is_number_char : ℕ → Bool
is_number_char c =
    between b'0' b'9' c || c == b'-' || c == b'+' || c == b'.' || c == b' ' || c == b'\t'

-- A loop that returns 0 at the first byte that fails the test.
unfoldable pub all_bytes : (ℕ → Bool) → Bytes → Bool
all_bytes test [] = true
all_bytes test (c ∷ s) = test c && all_bytes test s

unfoldable pub is_token_chars : Bytes → Bool
is_token_chars = all_bytes is_word_char

unfoldable pub starts_with : Bytes → Bytes → Bool
starts_with [] s = true
starts_with (p ∷ ps) [] = false
starts_with (p ∷ ps) (c ∷ s) = p == c && starts_with ps s

-- strstr(s, part) != NULL
unfoldable pub contains : Bytes → Bytes → Bool
contains part [] = starts_with part []
contains part (c ∷ s) = starts_with part (c ∷ s) || contains part s

abbrev pub climbs : Bytes → Bool
climbs s = contains (codes "../") s || contains (codes "..\\") s

abbrev pub is_dot_dot : Bytes → Bool
is_dot_dot s = get_or s 0 0 == b'.' && get_or s 1 0 == b'.' && get_or s 2 0 == 0

unfoldable pub is_map_chars : Bytes → Bool
is_map_chars s = all_bytes is_path_char s && not (is_dot_dot s) && not (climbs s)

pub is_number_chars : Bytes → Bool
is_number_chars = all_bytes is_number_char

unfoldable pub is_path_chars : Bytes → Bool
is_path_chars s = all_bytes is_path_char s && not (climbs s)

abbrev pub fold_case : ℕ → ℕ
fold_case c = if between b'A' b'Z' c then c + 32 else c

-- The first `n` bytes agree up to case, or both strings end before.
unfoldable pub str_case_prefix : Bytes → Bytes → ℕ → Bool
str_case_prefix s prefix zero = true
str_case_prefix s prefix (suc n) =
    let a = fold_case (get_or s 0 0) in
    let b = fold_case (get_or prefix 0 0) in
    let rest = str_case_prefix (tail s) (tail prefix) n in
    if not (a == b) then false else if a == 0 then true else rest

-- As before, and `a` ends after `n` bytes if the loop does not return before.
unfoldable pub str_case_eq : Bytes → Bytes → ℕ → Bool
str_case_eq a b zero = get_or a 0 0 == 0
str_case_eq a b (suc n) =
    let ca = fold_case (get_or a 0 0) in
    let cb = fold_case (get_or b 0 0) in
    let rest = str_case_eq (tail a) (tail b) n in
    if not (ca == cb) then false else if ca == 0 then true else rest
