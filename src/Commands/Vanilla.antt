-- ===== src/Commands/Vanilla.antt =====
-- VanillaBlock of proxy/proxy.c: the commands of the base game.
pub mod Limits
use japlusproxy.Prelude.{
  ℕ, Bytes, codes, Bool, true, false, ◌&&◌, ◌||◌, Option, some, List, [], ◌∷◌, ◌++◌, length, ltb,
  leb, if◌then◌else◌,
}
use japlusproxy.Prelude.Int.{ℤ, pos, negsuc, ltb_ℤ, leb_ℤ}
use japlusproxy.Engine.{Request, send_server_command, drop_client, Engine}
use japlusproxy.Syscall.{proxy_syscall}
use japlusproxy.Text.{has_crlf, has_chaining, str_case_prefix, str_case_eq}
use japlusproxy.Text.Number.{atol}

-- Whether to block, and the calls that reached the engine meanwhile.
pub record Verdict : Type 0 where
  pub block : Bool
  pub sent : List Request

abbrev verdict : Bool → Verdict
verdict b = record { block = b; sent = [] }

-- The announcement and the drop of a cheater, through the filter on calls.
unfoldable pub kick_cheater : Engine → ℤ → List Request
kick_cheater e client =
    (proxy_syscall (some e) (
      send_server_command (negsuc 0)
        (some (codes "chat \"^3(Anti-Cheat system) cheating detected^7\"")))).sent
    ++ (proxy_syscall (some e)
        (drop_client client (codes "(Anti-Cheat system) cheating detected"))).sent

-- gc <slot> with a slot that no client can have
pub gc_blocks : Engine → Bytes → Bytes → Bool
gc_blocks e cmd arg1 =
    str_case_eq cmd (codes "gc") 2
    && (ltb_ℤ (atol arg1) (pos 0) || leb_ℤ (e.cvar (codes "sv_maxclients")) (atol arg1))

pub npc_blocks : Engine → Bytes → Bool
npc_blocks e cmd =
    str_case_eq cmd (codes "npc") 3
    && str_case_eq (e.argv 1 128) (codes "spawn") 5
    && (str_case_eq (e.argv 2 128) (codes "ragnos") 6
        || str_case_eq (e.argv 2 128) (codes "saber_droid") 10)

pub team_blocks : Bytes → Bytes → Bool
team_blocks cmd arg1 =
    str_case_eq cmd (codes "team") 4
    && (str_case_eq arg1 (codes "follow1") 7 || str_case_eq arg1 (codes "follow2") 7)

abbrev pub outside : ℤ → ℕ → Bool
outside v hi = ltb_ℤ v (pos 0) || ltb_ℤ (pos hi) v

-- The value that a vote would set, by the vote's name.
pub vote_value_blocks : Bytes → ℤ → Bool
vote_value_blocks arg1 v =
    if str_case_eq arg1 (codes "capturelimit") 12 || str_case_eq arg1 (codes "fraglimit") 9
    then ltb_ℤ v (pos 0)
    else if str_case_eq arg1 (codes "g_doWarmup") 10
    then outside v 1
    else if str_case_eq arg1 (codes "map_restart") 11
    then outside v 60
    else if str_case_eq arg1 (codes "timelimit") 9
    then outside v 35790
    else false

pub callvote_blocks : Bytes → Bytes → Bytes → Bool
unfolding vote_value_blocks
callvote_blocks args arg1 arg2 =
    leb 256 (length arg2)
    || vote_value_blocks arg1 (atol arg2)
    || has_crlf args
    || has_chaining args

abbrev pub is_chat : Bytes → Bool
is_chat cmd =
    str_case_eq cmd (codes "say") 3
    || str_case_eq cmd (codes "say_team") 8
    || str_case_eq cmd (codes "tell") 4

-- From the test for callteamvote on.
unfoldable pub later_blocks : Bytes → Bytes → Bytes → Bytes → Bool
unfolding callvote_blocks
later_blocks cmd args arg1 arg2 =
    if str_case_eq cmd (codes "callteamvote") 12
    then true
    else if str_case_eq cmd (codes "callvote") 8
    then callvote_blocks args arg1 arg2
    else if is_chat cmd
    then has_crlf args || ltb 256 (length args)
    else has_crlf args || has_chaining args

unfoldable pub vanilla_block : Engine → ℤ → Bytes → Bytes → Bytes → Bytes → Verdict
unfolding gc_blocks npc_blocks team_blocks later_blocks
vanilla_block e client cmd args arg1 arg2 =
    if str_case_prefix cmd (codes "jkaDST_") 7
    then record { block = true; sent = kick_cheater e client }
    else if gc_blocks e cmd arg1 || npc_blocks e cmd || team_blocks cmd arg1
    then verdict true
    else verdict (later_blocks cmd args arg1 arg2)
