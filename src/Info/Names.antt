-- ===== src/Info/Names.antt =====
-- IsAsciiClean and CleanName of proxy/proxy.c.
pub mod Clean
use japlusproxy.Prelude.{
  ℕ, zero, suc, ◌+◌, ◌-◌, Bytes, codes, Bool, true, false, not, ◌&&◌, ◌||◌, List, [], ◌∷◌, ◌++◌,
  length, take, get_or, ltb, ◌==◌, if◌then◌else◌,
}
use japlusproxy.Text.{between, all_bytes}

unfoldable pub is_ascii_clean : Bytes → Bool
unfolding all_bytes
is_ascii_clean = all_bytes (between 32 126)

-- `while (*in == ' ' || *in == '*') in++;`
pub skip_leading : Bytes → Bytes
skip_leading [] = []
skip_leading (c ∷ s) = let rest = skip_leading s in if c == b' ' || c == b'*' then rest else c ∷ s

-- Extended bytes that break renderers and listings.
abbrev pub is_breaking : ℕ → Bool
is_breaking c =
    c == 0x81 || c == 0x8D || c == 0x8F || c == 0x90 || c == 0x9D || c == 0xA0 || c == 0xAD

-- A byte that starts three spaces or three at signs.
abbrev pub starts_run : Bytes → Bool
starts_run s =
    (get_or s 0 0 == b' ' && get_or s 1 0 == b' ' && get_or s 2 0 == b' ')
    || (get_or s 0 0 == b'@' && get_or s 1 0 == b'@' && get_or s 2 0 == b'@')

-- `out` and `colorless` of the loop.
pub record Cleaning : Type 0 where
  pub out : Bytes
  pub colorless : ℕ

-- out[pos - 2] == '^' after the byte is put
abbrev pub after_caret : Bytes → Bool
after_caret [] = false
after_caret (c ∷ []) = c == b'^'
after_caret (c ∷ d ∷ s) = after_caret (d ∷ s)

pub put_byte : ℕ → Cleaning → Cleaning
put_byte c w = record {
  out = w.out ++ c ∷ [];
  colorless =
      if after_caret w.out && (between b'0' b'9' c || c == b'#')
      then w.colorless
      else w.colorless + 1;
}

-- The loop, up to `outlen` and 64 bytes.
pub clean_loop : ℕ → Bytes → Cleaning → Cleaning
unfolding put_byte
clean_loop outlen [] w = w
clean_loop outlen (c ∷ s) w =
    let rest =
      clean_loop outlen s
        (if ltb c 0x20 || is_breaking c || starts_run (c ∷ s) then w else put_byte c w) in
    if ltb (length w.out + 1) outlen && ltb (length w.out + 1) 64 then rest else w

unfoldable pub clean_name : Bytes → ℕ → Bytes
unfolding skip_leading clean_loop
clean_name name outlen =
    let w = clean_loop outlen (skip_leading name) (record { out = []; colorless = 0 }) in
    take (outlen - 1)
      (if length w.out == 0 || w.colorless == 0 then take (outlen - 1) (codes "Padawan") else w.out)
