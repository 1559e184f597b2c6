-- ===== src/Tests/Commands.antt =====
-- The filter on client commands on a few of them.
use japlusproxy.Prelude.{
  ℕ, ◌<◌, ◌≡◌, ◌≢◌, refl, Bytes, codes, true, false, [], ◌∷◌, ◌++◌, arith, length, get_or,
}
use japlusproxy.Prelude.Int.{pos}
use japlusproxy.Engine.{Engine}
use japlusproxy.Text.{
  all_bytes, is_path_char, is_word_char, is_token_chars, contains, starts_with, is_map_chars,
  has_crlf, has_chaining, str_case_prefix, str_case_eq,
}
use japlusproxy.Text.Number.{atol}
use japlusproxy.Tests.Requests.{engine, say, saying}
use japlusproxy.Commands.JaPlus.{ja_plus_block}
use japlusproxy.Commands.Sinks.{IsSingle, allowed_vstr, allowed_map}
use japlusproxy.Commands.{should_block_client_command}
use japlusproxy.Commands.Args.{append_token, join_from, gather_args}
use japlusproxy.Commands.Vanilla.{npc_blocks, vanilla_block}
use japlusproxy.Commands.Vanilla.Limits.{InVoteRange, allowed_vote, npc_blocks_misses_saber_droid}
use japlusproxy.Commands.Safe.{FitsBuffers, allowed-has_crlf, allowed-has_chaining}

abbrev spawn : ℕ → Bytes
spawn n = get_or (codes "npc" ∷ codes "spawn" ∷ codes "Saber_Droid" ∷ []) n []

abbrev follow : ℕ → Bytes
follow n = get_or (codes "follow" ∷ codes "next" ∷ []) n []

say-FitsBuffers : FitsBuffers saying say
say-FitsBuffers = record {
  law = λ n size. refl;
  short = (omega arith, (omega arith, tt));
  total = omega arith;
}

say_allowed : (should_block_client_command saying (pos 0)).block ≡ false
unfolding should_block_client_command vanilla_block gather_args join_from append_token
    str_case_prefix str_case_eq atol has_crlf has_chaining
say_allowed = refl

say_no_rename : str_case_prefix (saying.argv 0 128) (codes "amrename") 8 ≡ false
unfolding str_case_prefix
say_no_rename = refl

allowed-has_crlf_example : has_crlf (say 2) ≡ false
allowed-has_crlf_example =
    allowed-has_crlf saying (pos 0) say 2 say-FitsBuffers say_no_rename say_allowed (omega arith)
      (omega arith)

abbrev following : Engine
following = engine follow 2

follow_allowed : (should_block_client_command following (pos 0)).block ≡ false
unfolding should_block_client_command vanilla_block gather_args join_from append_token
    str_case_prefix str_case_eq atol has_crlf has_chaining
follow_allowed = refl

allowed-has_chaining_example : has_chaining (gather_args following) ≡ false
unfolding str_case_prefix str_case_eq
allowed-has_chaining_example = allowed-has_chaining following (pos 0) refl refl follow_allowed

vote_allowed :
    (vanilla_block saying
      (pos 0)
      (codes "CallVote")
      (codes "timelimit 20")
      (codes "timelimit")
      (codes "20")).block
    ≡ false
unfolding vanilla_block str_case_prefix str_case_eq atol has_crlf has_chaining
vote_allowed = refl

is_callvote : str_case_eq (codes "CallVote") (codes "callvote") 8 ≡ true
unfolding str_case_eq
is_callvote = refl

allowed_vote_example :
    InVoteRange (codes "timelimit") (atol (codes "20"))
    × (length (codes "20") < 256)
    × (has_crlf (codes "timelimit 20") ≡ false)
    × (has_chaining (codes "timelimit 20") ≡ false)
allowed_vote_example =
    allowed_vote saying (pos 0) (codes "CallVote") (codes "timelimit 20") (codes "timelimit")
      (codes "20") (omega arith) is_callvote vote_allowed

slot_allowed : (vanilla_block saying (pos 0) (codes "gc") (codes "7") (codes "7") []).block ≡ false
unfolding vanilla_block str_case_prefix str_case_eq atol has_crlf has_chaining
slot_allowed = refl

is_gc : str_case_eq (codes "gc") (codes "gc") 2 ≡ true
unfolding str_case_eq
is_gc = refl

is_cheat : str_case_prefix (codes "jkadst_on") (codes "jkaDST_") 7 ≡ true
unfolding str_case_prefix
is_cheat = refl

npc_blocks_misses_saber_droid_example : npc_blocks (engine spawn 3) (codes "npc") ≡ false
npc_blocks_misses_saber_droid_example =
    npc_blocks_misses_saber_droid (engine spawn 3) (codes "npc") (omega arith) refl

abbrev vstr : ℕ → Bytes
vstr n = get_or (codes "AmVstr" ∷ codes "nextmap" ∷ []) n []

vstr_named : str_case_prefix ((engine vstr 2).argv 0 128) (codes "amvstr") 6 ≡ true
unfolding str_case_prefix
vstr_named = refl

vstr_passes : (should_block_client_command (engine vstr 2) (pos 0)).block ≡ false
unfolding should_block_client_command ja_plus_block gather_args join_from append_token
    str_case_prefix is_token_chars all_bytes
vstr_passes = refl

allowed_vstr_example : IsSingle (all_bytes is_word_char) 2 (codes "nextmap")
allowed_vstr_example =
    allowed_vstr (engine vstr 2) (pos 0) vstr (λ n size. refl) vstr_named vstr_passes

abbrev map_to : ℕ → Bytes
map_to n = get_or (codes "ammap" ∷ codes "mp/ffa3" ∷ []) n []

map_named : str_case_prefix ((engine map_to 2).argv 0 128) (codes "ammap") 5 ≡ true
unfolding str_case_prefix
map_named = refl

map_passes : (should_block_client_command (engine map_to 2) (pos 0)).block ≡ false
unfolding should_block_client_command ja_plus_block gather_args join_from append_token
    str_case_prefix is_map_chars all_bytes contains starts_with
map_passes = refl

allowed_map_example :
    IsSingle (all_bytes is_path_char) 2 (codes "mp/ffa3")
    × (codes "mp/ffa3" ≢ codes "mp/" ++ codes "../" ++ codes "x")
    × (codes "mp/ffa3" ≢ codes "..")
allowed_map_example =
    allowed_map (engine map_to 2) (pos 0) map_to (λ n size. refl) (codes "mp/") (codes "x")
      map_named map_passes
