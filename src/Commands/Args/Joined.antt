-- ===== src/Commands/Args/Joined.antt =====
-- The joined argument string against the tokens of the command.
use mathlib.Core.List.{append-nil, append_assoc}
use native.Mathlib.Decide.{dec_le}
use japlusproxy.Prelude.{
  ℕ, zero, suc, ◌+◌, ◌-◌, ◌≤◌, ◌<◌, ◌≡◌, ap, sym, ◌∙◌, Bytes, false, [], ◌∷◌, ◌++◌, arith, length,
  length-append, take, take_all, ltb, lt→ltb, inl, inr, Bool-cases, or-false, if◌then◌else◌,
}
use japlusproxy.Engine.{Engine}
use japlusproxy.Text.{has_crlf}
use japlusproxy.Text.Tests.{has_crlf-append}
use japlusproxy.Commands.Args.{append_token, join_from, gather_args}

-- G_ARGV copies as much of a token as fits into the buffer with its NUL.
abbrev pub IsArgv : Engine → (ℕ → Bytes) → Type 0
IsArgv e tokens = (n size : ℕ) → e.argv n size ≡ take (size - 1) (tokens n)

-- The tokens from `i` on, `k` of them, with a space before each but the first.
abbrev pub joined : (ℕ → Bytes) → ℕ → ℕ → Bytes
joined tokens i zero = []
joined tokens i (suc k) = (if ltb 1 i then b' ' ∷ tokens i else tokens i) ++ joined tokens (i + 1) k

-- Each token fits its buffer.
abbrev pub AllShort : (ℕ → Bytes) → ℕ → ℕ → Type 0
AllShort tokens i zero = Unit
AllShort tokens i (suc k) = (length (tokens i) < 256) × AllShort tokens (i + 1) k

abbrev spaced : ℕ → Bytes → Bytes
spaced i tok = if ltb 1 i then b' ' ∷ tok else tok

copy_all :
    (before tok : Bytes)
    → length before + length tok ≤ 1023
    → before
        ++ take
            (if ltb (1023 - length before) (length tok) then 1023 - length before else length tok)
            tok
      ≡ before ++ tok
copy_all before tok h =
    let fits : ltb (1023 - length before) (length tok) ≡ false = ground arith in
    rw fits (ap (before ++◌) (take_all (length tok) tok (omega arith)))

append_token_lem :
    (i : ℕ) (tok args : Bytes)
    → length args < 1023
    → length args + length (spaced i tok) ≤ 1023
    → append_token i tok args ≡ args ++ spaced i tok
unfolding append_token
append_token_lem i tok args h fit = elim (Bool-cases (ltb 1 i)) [
  | inl later ↦
      let open_end = lt→ltb (length args) 1023 h in
      rw (later, open_end)
        (copy_all (args ++ b' ' ∷ []) tok (rw length-append (omega (arith, rw later at fit)))
          ∙ append_assoc args (b' ' ∷ []) tok)
  | inr first ↦ rw first (copy_all args tok (omega (arith, rw first at fit)))
]

room_left :
    (i : ℕ) (tok args rest : Bytes)
    → length args + length (spaced i tok ++ rest) ≤ 1023
    → (i ≤ 1 → length args < 1023)
    → length args < 1023
room_left i tok args rest fit start = ground arith

module _ (e : Engine) (tokens : ℕ → Bytes) (law : IsArgv e tokens) where
  argv_whole : (i : ℕ) → length (tokens i) < 256 → e.argv i 256 ≡ tokens i
  argv_whole i h = law i 256 ∙ take_all 255 (tokens i) (omega arith)

  join_from-joined :
      (i k : ℕ) (args : Bytes)
      → 1 ≤ i
      → AllShort tokens i k
      → length args + length (joined tokens i k) ≤ 1023
      → (i ≤ 1 → length args < 1023)
      → join_from e i k args ≡ args ++ joined tokens i k
  unfolding join_from
  join_from-joined i zero args from short fit start = sym (append-nil args)
  join_from-joined i (suc k) args from short fit start =
      let room = room_left i (tokens i) args (joined tokens (i + 1) k) fit start in
      let parts = length-append (spaced i (tokens i)) (joined tokens (i + 1) k) in
      let next = append_token_lem i (tokens i) args room (omega (arith, parts)) in
      let longer = length-append args (spaced i (tokens i)) in
      rw (lt→ltb (length args) 1023 room, argv_whole i short.0, next)
        (join_from-joined (i + 1) k (args ++ spaced i (tokens i)) (omega arith) short.1
            (omega (arith, parts, longer)) (λ h. absurd (omega arith))
          ∙ append_assoc args (spaced i (tokens i)) (joined tokens (i + 1) k))

  -- If each token is shorter than 256 bytes and all of them with the spaces between have at most
  -- 1023, the string that is tested holds the arguments whole.
  pub gather_args-joined :
      AllShort tokens 1 (e.argc - 1)
      → length (joined tokens 1 (e.argc - 1)) ≤ 1023
      → gather_args e ≡ joined tokens 1 (e.argc - 1)
  unfolding gather_args
  gather_args-joined short fit =
      join_from-joined 1 (e.argc - 1) [] (omega arith) short (omega arith) (λ h. omega arith)

has_crlf-spaced : (i : ℕ) (tok : Bytes) → has_crlf (spaced i tok) ≡ has_crlf tok
unfolding has_crlf
has_crlf-spaced i tok = ground arith

-- A joined string with no line break has no token with one.
pub joined-has_crlf :
    (tokens : ℕ → Bytes) (i k n : ℕ)
    → has_crlf (joined tokens i k) ≡ false
    → i ≤ n
    → n < i + k
    → has_crlf (tokens n) ≡ false
joined-has_crlf tokens i zero n h lo hi = absurd (omega arith)
joined-has_crlf tokens i (suc k) n h lo hi =
    let both = has_crlf-append (spaced i (tokens i)) (joined tokens (i + 1) k) in
    let (this, rest) =
      or-false (has_crlf (spaced i (tokens i))) (has_crlf (joined tokens (i + 1) k))
        (sym both ∙ h) in
    elim (dec_le n i) [
      | yes here ↦
          rw (let same : n ≡ i = omega arith in same) (sym (has_crlf-spaced i (tokens i)) ∙ this)
      | no later ↦ joined-has_crlf tokens (i + 1) k n rest (omega arith) (omega arith)
    ]
