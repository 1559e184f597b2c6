-- ===== src/Text/Number.antt =====
-- atoi and atol as the code calls them: C's strtol in base 10, where `int` and `long` have 32 bits
-- and a number out of range is cut to the nearest one in range.
use japlusproxy.Prelude.{
  ℕ, ◌+◌, ◌-◌, ◌*◌, ◌^◌, ◌≡◌, refl, Bytes, codes, Bool, ◌||◌, [], ◌∷◌, ◌==◌, ltb, if◌then◌else◌,
}
use japlusproxy.Prelude.Int.{ℤ, pos, negsuc, to_neg}
use japlusproxy.Text.{between}

abbrev is_space : ℕ → Bool
is_space c = c == b' ' || between 9 13 c

skip_spaces : Bytes → Bytes
skip_spaces [] = []
skip_spaces (c ∷ s) = let rest = skip_spaces s in if is_space c then rest else c ∷ s

digits : ℕ → Bytes → ℕ
digits n [] = n
digits n (c ∷ s) =
    let rest = digits (n * 10 + (c - 48)) s in if between b'0' b'9' c then rest else n

abbrev cut_pos : ℕ → ℤ
cut_pos n = if ltb n (2 ^ 31) then pos n else pos (2 ^ 31 - 1)

abbrev cut_neg : ℕ → ℤ
cut_neg n = if ltb (2 ^ 31) n then negsuc (2 ^ 31 - 1) else to_neg n

signed : Bytes → ℤ
unfolding digits
signed [] = pos 0
signed (c ∷ s) =
    if c == b'-'
    then cut_neg (digits 0 s)
    else if c == b'+'
    then cut_pos (digits 0 s)
    else cut_pos (digits 0 (c ∷ s))

unfoldable pub atol : Bytes → ℤ
unfolding skip_spaces signed
atol s = signed (skip_spaces s)

atol_cuts : atol (codes " -99999999999x") ≡ negsuc (2 ^ 31 - 1)
unfolding atol
atol_cuts = refl
