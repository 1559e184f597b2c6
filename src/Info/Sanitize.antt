-- ===== src/Info/Sanitize.antt =====
-- UserinfoLooksEvil and SanitizeUserinfo of proxy/proxy.c. The keys are handled one after the
-- other; each step returns the info string and whether it changed it.
pub mod Safe
pub mod Force
pub mod Policy
pub mod Run
pub mod Grows
pub mod Game
use japlusproxy.Prelude.{
  ℕ, zero, suc, ◌+◌, ◌-◌, Bytes, codes, Bool, true, false, not, ◌&&◌, ◌||◌, Option, none, some,
  List, [], ◌∷◌, length, get_or, ltb, leb, ◌==◌, if◌then◌else◌,
}
use japlusproxy.Text.{between, has_crlf, is_token_chars, is_path_chars, str_case_eq}
use japlusproxy.Info.{info_value, info_set}
use japlusproxy.Info.Names.{is_ascii_clean, clean_name}

-- The caller passes a buffer, never a null pointer.
unfoldable pub userinfo_looks_evil : Bytes → Bool
userinfo_looks_evil s = length s == 0 || leb 1024 (length s)

-- sizeof(ui) in vmMain, and sizeof(val) here
abbrev pub userinfo_size : ℕ
userinfo_size = 2048

abbrev pub value_size : ℕ
value_size = 512

abbrev is_cheat_model : Bytes → Bool
is_cheat_model val = str_case_eq val (codes "darksidetools") 12

unfoldable pub is_bad_model : Bytes → Bool
is_bad_model val =
    str_case_eq val (codes "jedi_/red") 9
    || str_case_eq val (codes "jedi_/blue") 10
    || str_case_eq val (codes "rancor") 6
    || str_case_eq val (codes "wampa") 5
    || not (is_ascii_clean val)
    || leb 64 (length val)

-- One round of the loop over forcepowers, at index `i` behind the byte `before`: none is bad, else
-- the count of separators.
force_byte : ℕ → ℕ → ℕ → ℕ → Option ℕ
force_byte i before c seps =
    if not (c == b'-')
    then (if between b'0' b'9' c then some seps else none)
    else if ltb i 1 || ltb 5 i || before == b'-'
    then none
    else some (seps + 1)

abbrev force_next : Option ℕ → (ℕ → Option ℕ) → Option ℕ
force_next none f = none
force_next (some n) f = f n

force_loop : ℕ → ℕ → Bytes → ℕ → Option ℕ
unfolding force_byte
force_loop i before [] seps = some seps
force_loop i before (c ∷ s) seps = force_next (force_byte i before c seps) (force_loop (i + 1) c s)

abbrev two_seps : Option ℕ → Bool
two_seps none = false
two_seps (some n) = n == 2

pub is_bad_force : Bytes → Bool
unfolding force_loop
is_bad_force val =
    ltb (length val) 22 || ltb 24 (length val) || not (two_seps (force_loop 0 0 val 0))

abbrev pub default_force : Bytes
default_force = codes "7-1-030000000000003332"

unfoldable pub same_bytes : Bytes → Bytes → Bool
same_bytes [] [] = true
same_bytes (x ∷ a) (y ∷ b) = x == y && same_bytes a b
same_bytes _ _ = false

-- `val[0]` is no NUL where the string is not empty.
pub is_bad_class : Bytes → Bool
is_bad_class val =
    (not (length val == 0) && not (is_token_chars val)) || leb 64 (length val) || has_crlf val

pub is_bad_saber : Bytes → Bool
is_bad_saber val = not (is_path_chars val) || leb 64 (length val) || has_crlf val

abbrev pub Fixed : Type 0
Fixed = Bytes × Bool

-- Reads a key of the info string, and sets it anew if its value is bad.
abbrev pub fix_value : Bytes → (Bytes → Bool) → (Bytes → Bytes) → Bytes → Option Bytes → Fixed
fix_value key bad new ui none = (ui, false)
fix_value key bad new ui (some val) =
    if bad val then (info_set ui userinfo_size key (new val), true) else (ui, false)

pub fix_key : Bytes → (Bytes → Bool) → (Bytes → Bytes) → Bytes → Fixed
fix_key key bad new ui = fix_value key bad new ui (info_value ui key value_size)

abbrev pub is_bad_name : Bytes → Bool
is_bad_name val = not (same_bytes val (clean_name val value_size))

-- What is asked of the keys, in the order of the function.
pub record Step : Type 0 where
  pub key : Bytes
  pub bad : Bytes → Bool
  pub new : Bytes → Bytes

abbrev pub model_step : Step
model_step = record { key = codes "model"; bad = is_bad_model; new = λ _. codes "kyle" }

abbrev pub force_step : Step
force_step = record { key = codes "forcepowers"; bad = is_bad_force; new = λ _. default_force }

abbrev pub name_step : Step
name_step = record { key = codes "name"; bad = is_bad_name; new = λ val. clean_name val value_size }

-- A key whose bad value is taken out: the game's default applies.
abbrev pub drop_step : Bytes → (Bytes → Bool) → Step
drop_step key bad = record { key = key; bad = bad; new = λ _. [] }

abbrev pub steps : List Step
steps =
    model_step
    ∷ force_step
    ∷ name_step
    ∷ drop_step (codes "siegeclass") is_bad_class
    ∷ drop_step (codes "saber1") is_bad_saber
    ∷ drop_step (codes "saber2") is_bad_saber
    ∷ []

pub run_steps : List Step → Bytes → Fixed
unfolding fix_key
run_steps [] ui = (ui, false)
run_steps (s ∷ rest) ui =
    let (ui', changed) = fix_key s.key s.bad s.new ui in
    let (ui'', later) = run_steps rest ui' in (ui'', changed || later)

-- -1, 0 and 1 of the source, with the info string as it is left.
pub data Sanitized : Type 0 where
  kick : Sanitized
  clean : Sanitized
  fixed : Bytes → Sanitized

abbrev pub is_cheater : Option Bytes → Bool
is_cheater none = false
is_cheater (some val) = is_cheat_model val

unfoldable pub sanitize_userinfo : Bytes → Sanitized
unfolding run_steps
sanitize_userinfo ui =
    if is_cheater (info_value ui (codes "model") value_size)
    then kick
    else let (ui', changed) = run_steps steps ui in if changed then fixed ui' else clean
