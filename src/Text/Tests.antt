-- ===== src/Text/Tests.antt =====
-- What the character tests say of a string.
use japlusproxy.Prelude.{
  and-true, ℕ, ◌≡◌, refl, Bytes, true, false, ◌||◌, [], ◌∷◌, ◌++◌, arith, ◌==◌,
}
use japlusproxy.Text.{has_crlf, all_bytes, is_word_char, is_path_char, is_token_chars, is_map_chars}

is_path_char-crlf : (c : ℕ) → is_path_char c ≡ true → (c == b'\r' || c == b'\n') ≡ false
is_path_char-crlf c h = ground arith

path_bytes-has_crlf : (s : Bytes) → all_bytes is_path_char s ≡ true → has_crlf s ≡ false
unfolding all_bytes has_crlf
path_bytes-has_crlf [] h = refl
path_bytes-has_crlf (c ∷ s) h =
    let (this, rest) = and-true (is_path_char c) (all_bytes is_path_char s) h in
    rw (is_path_char-crlf c this) (path_bytes-has_crlf s rest)

word-path : (s : Bytes) → all_bytes is_word_char s ≡ true → all_bytes is_path_char s ≡ true
unfolding all_bytes
word-path [] h = refl
word-path (c ∷ s) h =
    let (this, rest) = and-true (is_word_char c) (all_bytes is_word_char s) h in
    rw (this, word-path s rest)

pub is_token_chars-has_crlf : (s : Bytes) → is_token_chars s ≡ true → has_crlf s ≡ false
unfolding is_token_chars
is_token_chars-has_crlf s h = path_bytes-has_crlf s (word-path s h)

pub is_map_chars-has_crlf : (s : Bytes) → is_map_chars s ≡ true → has_crlf s ≡ false
unfolding is_map_chars
is_map_chars-has_crlf s h = path_bytes-has_crlf s (ground arith)

pub has_crlf-append : (a b : Bytes) → has_crlf (a ++ b) ≡ (has_crlf a || has_crlf b)
unfolding has_crlf
has_crlf-append [] b = refl
has_crlf-append (c ∷ a) b = ground (arith, has_crlf-append a b)
