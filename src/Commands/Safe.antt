-- ===== src/Commands/Safe.antt =====
-- What an allowed command cannot carry.
use japlusproxy.Prelude.{
  ℕ, zero, suc, ◌-◌, ◌≤◌, ◌<◌, ◌≡◌, ◌⊎◌, inl, inr, ◌∙◌, Bytes, codes, Bool, true, false, ◌||◌,
  arith, length, take_short, Bool-cases,
}
use japlusproxy.Prelude.Int.{ℤ}
use japlusproxy.Engine.{Engine}
use japlusproxy.Text.{has_crlf, has_chaining, is_token_chars, is_map_chars, str_case_prefix}
use japlusproxy.Text.Tests.{is_token_chars-has_crlf, is_map_chars-has_crlf}
use mathlib.Core.List.{append-nil}
use japlusproxy.Commands.{should_block_client_command}
use japlusproxy.Commands.Args.{gather_args}
use japlusproxy.Commands.Args.Joined.{IsArgv, AllShort, joined, gather_args-joined, joined-has_crlf}
use japlusproxy.Commands.JaPlus.{ja_plus_block, blocks_single}
use japlusproxy.Commands.Vanilla.{vanilla_block, later_blocks, is_chat}

-- The string has no line break, or the command has one argument, short and with none.
abbrev OneLine : Bytes → ℕ → Bytes → Type 0
OneLine args argc arg1 =
    (has_crlf args ≡ false) ⊎ ((argc ≡ 2) × (length arg1 ≤ 64) × (has_crlf arg1 ≡ false))

blocks_single-OneLine :
    (test : Bytes → Bool) (args : Bytes) (argc : ℕ) (arg1 : Bytes)
    → (test arg1 ≡ true → has_crlf arg1 ≡ false)
    → blocks_single test argc arg1 ≡ false
    → OneLine args argc arg1
blocks_single-OneLine test args argc arg1 clean h =
    inr (ground arith, ground arith, ground (arith, clean))

ja_plus_block-OneLine :
    (cmd args : Bytes) (argc : ℕ) (arg1 : Bytes)
    → str_case_prefix cmd (codes "amrename") 8 ≡ false
    → ja_plus_block cmd args argc arg1 ≡ false
    → OneLine args argc arg1
unfolding ja_plus_block
ja_plus_block-OneLine cmd args argc arg1 other h = ground (
  arith,
  blocks_single-OneLine is_token_chars args argc arg1 (is_token_chars-has_crlf arg1),
  blocks_single-OneLine is_map_chars args argc arg1 (is_map_chars-has_crlf arg1),
)

-- The arguments fit the buffers of the filter.
pub record FitsBuffers (e : Engine) (tokens : ℕ → Bytes) : Type 0 where
  pub law : IsArgv e tokens
  pub short : AllShort tokens 1 (e.argc - 1)
  pub total : length (joined tokens 1 (e.argc - 1)) ≤ 1023

module _ (e : Engine) (tokens : ℕ → Bytes) (fits : FitsBuffers e tokens) where
  -- A single argument is tested in a buffer of 128 bytes; when it is short, that is all of it.
  one_argument :
      e.argc ≡ 2
      → length (e.argv 1 128) ≤ 64
      → has_crlf (e.argv 1 128) ≡ false
      → has_crlf (joined tokens 1 (e.argc - 1)) ≡ false
  one_argument two short clean =
      let whole : e.argv 1 128 ≡ tokens 1 =
        fits.law 1 128
        ∙ take_short 127 (tokens 1)
            (rw (fits.law 1 128) at (let s : length (e.argv 1 128) < 127 = omega arith in s)) in
      let count : e.argc - 1 ≡ suc zero = omega arith in
      rw count (rw append-nil (rw (← whole) clean))

  OneLine-joined :
      OneLine (gather_args e) e.argc (e.argv 1 128)
      → has_crlf (joined tokens 1 (e.argc - 1)) ≡ false
  OneLine-joined (inl clean) =
      rw (gather_args-joined e tokens fits.law fits.short fits.total) at clean
  OneLine-joined (inr (two, short, clean)) = one_argument two short clean

vanilla_block-later :
    (e : Engine) (client : ℤ) (cmd args arg1 arg2 : Bytes)
    → (vanilla_block e client cmd args arg1 arg2).block ≡ false
    → later_blocks cmd args arg1 arg2 ≡ false
unfolding vanilla_block
vanilla_block-later e client cmd args arg1 arg2 h = ground arith

later_blocks-has_crlf :
    (cmd args arg1 arg2 : Bytes) → later_blocks cmd args arg1 arg2 ≡ false → has_crlf args ≡ false
unfolding later_blocks
later_blocks-has_crlf cmd args arg1 arg2 h = ground arith

vanilla_block-has_crlf :
    (e : Engine) (client : ℤ) (cmd args arg1 arg2 : Bytes)
    → (vanilla_block e client cmd args arg1 arg2).block ≡ false
    → has_crlf args ≡ false
vanilla_block-has_crlf e client cmd args arg1 arg2 h =
    later_blocks-has_crlf cmd args arg1 arg2 (vanilla_block-later e client cmd args arg1 arg2 h)

-- A command that the filter lets through, other than amrename, has no line break in any argument,
-- if its arguments fit the buffers in which the filter joins them.
pub allowed-has_crlf :
    (e : Engine) (client : ℤ) (tokens : ℕ → Bytes) (n : ℕ)
    → FitsBuffers e tokens
    → str_case_prefix (e.argv 0 128) (codes "amrename") 8 ≡ false
    → (should_block_client_command e client).block ≡ false
    → 1 ≤ n
    → n < e.argc
    → has_crlf (tokens n) ≡ false
unfolding should_block_client_command
allowed-has_crlf e client tokens n fits other h lo hi =
    joined-has_crlf tokens 1 (e.argc - 1) n (OneLine-joined e tokens fits one_line) lo (omega arith)
  where
    one_line : OneLine (gather_args e) e.argc (e.argv 1 128)
    one_line = elim (Bool-cases (str_case_prefix (e.argv 0 128) (codes "am") 2)) [
      | inl admin ↦
          ja_plus_block-OneLine (e.argv 0 128) (gather_args e) e.argc (e.argv 1 128) other
            (rw admin at h)
      | inr vanilla ↦ inl (
          vanilla_block-has_crlf e client (e.argv 0 128) (gather_args e) (e.argv 1 128)
            (e.argv 2 256) (rw vanilla at h))
    ]

-- The admin commands whose arguments may hold `;`: chat, single tokens, passwords and names.
abbrev may_chain : Bytes → Bool
may_chain cmd =
    str_case_prefix cmd (codes "amsay") 5
    || str_case_prefix cmd (codes "ampsay") 6
    || str_case_prefix cmd (codes "amvstr") 6
    || str_case_prefix cmd (codes "ammap") 5
    || str_case_prefix cmd (codes "amlogin") 7
    || str_case_prefix cmd (codes "amrename") 8

ja_plus_block-has_chaining :
    (cmd args : Bytes) (argc : ℕ) (arg1 : Bytes)
    → may_chain cmd ≡ false
    → ja_plus_block cmd args argc arg1 ≡ false
    → has_chaining args ≡ false
unfolding ja_plus_block
ja_plus_block-has_chaining cmd args argc arg1 other h = ground arith

later_blocks-has_chaining :
    (cmd args arg1 arg2 : Bytes)
    → is_chat cmd ≡ false
    → later_blocks cmd args arg1 arg2 ≡ false
    → has_chaining args ≡ false
unfolding later_blocks
later_blocks-has_chaining cmd args arg1 arg2 quiet h = ground arith

-- A command that is let through has no `;` in the string of its arguments, but for chat and the
-- admin commands of `may_chain`.
pub allowed-has_chaining :
    (e : Engine) (client : ℤ)
    → may_chain (e.argv 0 128) ≡ false
    → is_chat (e.argv 0 128) ≡ false
    → (should_block_client_command e client).block ≡ false
    → has_chaining (gather_args e) ≡ false
unfolding should_block_client_command
allowed-has_chaining e client other quiet h =
    elim (Bool-cases (str_case_prefix (e.argv 0 128) (codes "am") 2)) [
      | inl admin ↦
          ja_plus_block-has_chaining (e.argv 0 128) (gather_args e) e.argc (e.argv 1 128) other
            (rw admin at h)
      | inr vanilla ↦
          later_blocks-has_chaining (e.argv 0 128) (gather_args e) (e.argv 1 128) (e.argv 2 256)
            quiet
            (vanilla_block-later e client (e.argv 0 128) (gather_args e) (e.argv 1 128)
              (e.argv 2 256) (rw vanilla at h))
    ]
