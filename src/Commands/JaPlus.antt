-- ===== src/Commands/JaPlus.antt =====
-- JAPlusBlock of proxy/proxy.c: the policy for the admin commands of JA+.
use japlusproxy.Prelude.{
  ℕ, Bytes, codes, Bool, not, ◌&&◌, ◌||◌, length, get_or, ltb, leb, ◌==◌, if◌then◌else◌,
}
use japlusproxy.Text.{
  has_crlf, has_chaining, is_token_chars, is_map_chars, is_number_chars, is_path_chars,
  str_case_prefix,
}

-- `s[0]` as a condition
abbrev non_empty : Bytes → Bool
non_empty s = not (get_or s 0 0 == 0)

-- The policies, from the strictest sink to the rest.
abbrev blocks_chat : Bytes → Bool
blocks_chat args = has_crlf args || ltb 256 (length args)

abbrev pub blocks_single : (Bytes → Bool) → ℕ → Bytes → Bool
blocks_single test argc arg1 =
    not (argc == 2 && non_empty arg1 && leb (length arg1) 64 && test arg1)

abbrev blocks_login : Bytes → Bool
blocks_login args = has_crlf args || ltb 128 (length args)

abbrev blocks_rename : Bytes → Bool
blocks_rename arg1 =
    not (non_empty arg1) || has_crlf arg1 || has_chaining arg1 || ltb 64 (length arg1)

abbrev blocks_numbers : Bytes → Bool
blocks_numbers args =
    has_crlf args || has_chaining args || ltb 512 (length args) || not (is_number_chars args)

abbrev blocks_path : Bytes → Bytes → Bool
blocks_path args arg1 =
    not (non_empty arg1)
    || has_crlf args
    || has_chaining args
    || ltb 512 (length args)
    || not (is_path_chars arg1)

abbrev blocks_longer : ℕ → Bytes → Bool
blocks_longer n args = has_crlf args || has_chaining args || ltb n (length args)

abbrev has_prefix : Bytes → Bytes → ℕ → Bool
has_prefix = str_case_prefix

unfoldable pub ja_plus_block : Bytes → Bytes → ℕ → Bytes → Bool
ja_plus_block cmd args argc arg1 =
    if has_prefix cmd (codes "amsay") 5 || has_prefix cmd (codes "ampsay") 6
    then blocks_chat args
    else if has_prefix cmd (codes "amvstr") 6
    then blocks_single is_token_chars argc arg1
    else if has_prefix cmd (codes "ammap") 5
    then blocks_single is_map_chars argc arg1
    else if has_prefix cmd (codes "amlogin") 7
    then blocks_login args
    else if has_prefix cmd (codes "amrename") 8
    then blocks_rename arg1
    else if has_prefix cmd (codes "amtele") 6
        || has_prefix cmd (codes "amtelemark") 10
        || has_prefix cmd (codes "amorigin") 8
    then blocks_numbers args
    else if has_prefix cmd (codes "amplayefx") 9 || has_prefix cmd (codes "amweather") 9
    then blocks_path args arg1
    else if has_prefix cmd (codes "ampoll") 6
    then blocks_longer 256 args
    else blocks_longer 512 args
