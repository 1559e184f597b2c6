-- ===== src/Commands/Vanilla/Limits.antt =====
-- The numbers and names that VanillaBlock keeps from the game.
use japlusproxy.Prelude.{
  ◌<◌, ◌≡◌, ◌≢◌, refl, ap, sym, ◌∙◌, length-map, get_or, Bytes, codes, true, false, some, [], ◌∷◌,
  map, arith, length, inl, inr, Bool-cases,
}
use japlusproxy.Prelude.Int.{ℤ, pos, negsuc, ◌≤ℤ◌, ◌<ℤ◌}
use japlusproxy.Engine.{send_server_command, drop_client, Engine}
use japlusproxy.Syscall.{proxy_syscall}
use japlusproxy.Text.{has_crlf, has_chaining, fold_case, str_case_prefix, str_case_eq}
use japlusproxy.Text.Case.{NoNul, str_case_eq_iff, str_case_eq_long}
use japlusproxy.Text.Number.{atol}
use japlusproxy.Commands.Vanilla.{
  kick_cheater, gc_blocks, npc_blocks, vote_value_blocks, callvote_blocks, later_blocks,
  vanilla_block,
}

-- Two names that differ are not both equal to a string, up to case.
other_name :
    (a b c : Bytes)
    → NoNul a
    → NoNul b
    → NoNul c
    → map fold_case b ≢ map fold_case c
    → str_case_eq a b (length b) ≡ true
    → str_case_eq a c (length c) ≡ false
other_name a b c na nb nc ne h = elim (Bool-cases (str_case_eq a c (length c))) [
  | inr no_match ↦ no_match
  | inl both ↦
      absurd (ne (cc ((str_case_eq_iff a b na nb).0 h, (str_case_eq_iff a c na nc).0 both)))
]

-- A vote that is let through sets the value of its limit in the range that the game takes.
abbrev pub InVoteRange : Bytes → ℤ → Type 0
InVoteRange arg1 v =
    (str_case_eq arg1 (codes "capturelimit") 12 ≡ true → pos 0 ≤ℤ v)
    × (str_case_eq arg1 (codes "fraglimit") 9 ≡ true → pos 0 ≤ℤ v)
    × (str_case_eq arg1 (codes "g_doWarmup") 10 ≡ true → (pos 0 ≤ℤ v) × (v ≤ℤ pos 1))
    × (str_case_eq arg1 (codes "map_restart") 11 ≡ true → (pos 0 ≤ℤ v) × (v ≤ℤ pos 60))
    × (str_case_eq arg1 (codes "timelimit") 9 ≡ true → (pos 0 ≤ℤ v) × (v ≤ℤ pos 35790))

vote_value-InVoteRange :
    (arg1 : Bytes) (v : ℤ) → NoNul arg1 → vote_value_blocks arg1 v ≡ false → InVoteRange arg1 v
unfolding vote_value_blocks
vote_value-InVoteRange arg1 v n h = (
  λ e. ground arith,
  λ e. ground arith,
  λ e. ground (
    arith,
    other_name arg1 (codes "g_doWarmup") (codes "capturelimit") n (omega arith) (omega arith)
        (λ p. omega (arith, ap (λ (s : Bytes). get_or s 0 0) p)) e,
    other_name arg1 (codes "g_doWarmup") (codes "fraglimit") n (omega arith) (omega arith)
        (λ p. omega (arith, ap (λ (s : Bytes). get_or s 0 0) p)) e,
  ),
  λ e. ground (
    arith,
    other_name arg1 (codes "map_restart") (codes "capturelimit") n (omega arith) (omega arith)
        (λ p. omega (arith, ap (λ (s : Bytes). get_or s 0 0) p)) e,
    other_name arg1 (codes "map_restart") (codes "fraglimit") n (omega arith) (omega arith)
        (λ p. omega (arith, ap (λ (s : Bytes). get_or s 0 0) p)) e,
    other_name arg1 (codes "map_restart") (codes "g_doWarmup") n (omega arith) (omega arith)
        (λ p. omega (arith, ap (λ (s : Bytes). get_or s 0 0) p)) e,
  ),
  λ e. ground (
    arith,
    other_name arg1 (codes "timelimit") (codes "capturelimit") n (omega arith) (omega arith)
        (λ p. omega (arith, ap (λ (s : Bytes). get_or s 0 0) p)) e,
    other_name arg1 (codes "timelimit") (codes "fraglimit") n (omega arith) (omega arith)
        (λ p. omega (arith, ap (λ (s : Bytes). get_or s 0 0) p)) e,
    other_name arg1 (codes "timelimit") (codes "g_doWarmup") n (omega arith) (omega arith)
        (λ p. omega (arith, ap (λ (s : Bytes). get_or s 0 0) p)) e,
    other_name arg1 (codes "timelimit") (codes "map_restart") n (omega arith) (omega arith)
        (λ p. omega (arith, ap (λ (s : Bytes). get_or s 0 0) p)) e,
  ),
)

vanilla_block-parts :
    (e : Engine) (client : ℤ) (cmd args arg1 arg2 : Bytes)
    → (vanilla_block e client cmd args arg1 arg2).block ≡ false
    → (gc_blocks e cmd arg1 ≡ false) × (later_blocks cmd args arg1 arg2 ≡ false)
unfolding vanilla_block
vanilla_block-parts e client cmd args arg1 arg2 h = (ground arith, ground arith)

callvote-parts :
    (cmd args arg1 arg2 : Bytes)
    → str_case_eq cmd (codes "callvote") 8 ≡ true
    → later_blocks cmd args arg1 arg2 ≡ false
    → (length arg2 < 256)
      × (vote_value_blocks arg1 (atol arg2) ≡ false)
      × (has_crlf args ≡ false)
      × (has_chaining args ≡ false)
unfolding later_blocks callvote_blocks
callvote-parts cmd args arg1 arg2 vote h = (ground arith, ground arith, ground arith, ground arith)

-- A vote that passes the filter has a value of fewer than 256 bytes, in the range of the limit that
-- it sets, and an argument string with no line break and no `;`.
pub allowed_vote :
    (e : Engine) (client : ℤ) (cmd args arg1 arg2 : Bytes)
    → NoNul arg1
    → str_case_eq cmd (codes "callvote") 8 ≡ true
    → (vanilla_block e client cmd args arg1 arg2).block ≡ false
    → InVoteRange arg1 (atol arg2)
      × (length arg2 < 256)
      × (has_crlf args ≡ false)
      × (has_chaining args ≡ false)
allowed_vote e client cmd args arg1 arg2 n vote h =
    let parts =
      callvote-parts cmd args arg1 arg2 vote
        (vanilla_block-parts e client cmd args arg1 arg2 h).1 in
    (vote_value-InVoteRange arg1 (atol arg2) n parts.1, parts.0, parts.2, parts.3)

slot_of :
    (e : Engine) (cmd arg1 : Bytes)
    → str_case_eq cmd (codes "gc") 2 ≡ true
    → gc_blocks e cmd arg1 ≡ false
    → (pos 0 ≤ℤ atol arg1) × (atol arg1 <ℤ e.cvar (codes "sv_maxclients"))
unfolding gc_blocks
slot_of e cmd arg1 gc h = (ground arith, ground arith)

-- A gc that passes the filter names a slot from 0 up to sv_maxclients.
pub allowed_slot :
    (e : Engine) (client : ℤ) (cmd args arg1 arg2 : Bytes)
    → str_case_eq cmd (codes "gc") 2 ≡ true
    → (vanilla_block e client cmd args arg1 arg2).block ≡ false
    → (pos 0 ≤ℤ atol arg1) × (atol arg1 <ℤ e.cvar (codes "sv_maxclients"))
allowed_slot e client cmd args arg1 arg2 gc h =
    slot_of e cmd arg1 gc (vanilla_block-parts e client cmd args arg1 arg2 h).0

-- A client of the cheat module is announced and dropped, by two calls that reach the engine in
-- this order, and its command is blocked.
pub kicks_cheater :
    (e : Engine) (client : ℤ) (cmd args arg1 arg2 : Bytes)
    → str_case_prefix cmd (codes "jkaDST_") 7 ≡ true
    → vanilla_block e client cmd args arg1 arg2 ≡ record {
      block = true;
      sent =
          send_server_command
            (negsuc 0)
            (some (codes "chat \"^3(Anti-Cheat system) cheating detected^7\""))
          ∷ drop_client client (codes "(Anti-Cheat system) cheating detected")
          ∷ [];
    }
unfolding vanilla_block kick_cheater proxy_syscall
kicks_cheater e client cmd args arg1 arg2 h = rw h refl

-- Whatever the command, a second argument that is saber_droid, in any case, is no reason to block:
-- the test compares ten of its eleven letters and then wants the end.
pub npc_blocks_misses_saber_droid :
    (e : Engine) (cmd : Bytes)
    → NoNul (e.argv 2 128)
    → map fold_case (e.argv 2 128) ≡ codes "saber_droid"
    → npc_blocks e cmd ≡ false
unfolding npc_blocks
npc_blocks_misses_saber_droid e cmd n same =
    let eleven : length (e.argv 2 128) ≡ 11 =
      sym (length-map fold_case (e.argv 2 128)) ∙ ap length same in
    ground (
      arith,
      str_case_eq_long (e.argv 2 128) (codes "ragnos") 6 n (omega arith),
      str_case_eq_long (e.argv 2 128) (codes "saber_droid") 10 n (omega arith),
    )
