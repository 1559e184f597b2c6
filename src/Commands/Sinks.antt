-- ===== src/Commands/Sinks.antt =====
-- The two admin commands whose argument names something to run: amvstr, a variable that is executed,
-- and ammap, a map that is loaded.
use japlusproxy.Prelude.{
  ℕ, ◌≤◌, ◌<◌, ◌≡◌, ◌≢◌, refl, ◌∙◌, Bytes, codes, Bool, true, false, not, [], ◌∷◌, ◌++◌, arith,
  length, ◌==◌, take_short, if◌then◌else◌,
}
use japlusproxy.Prelude.Int.{ℤ}
use japlusproxy.Engine.{Engine}
use japlusproxy.Text.{
  tail, fold_case, is_path_char, is_word_char, all_bytes, is_token_chars, is_map_chars,
  str_case_prefix,
}
use japlusproxy.Text.Paths.{is_map_chars-climbs}
use japlusproxy.Commands.{should_block_client_command}
use japlusproxy.Commands.Args.{gather_args}
use japlusproxy.Commands.Args.Joined.{IsArgv}
use japlusproxy.Commands.JaPlus.{ja_plus_block, blocks_single}

-- Two prefixes that differ, up to case, at a byte that both have.
clash : Bytes → Bytes → Bool
clash [] q = false
clash (x ∷ p) [] = false
clash (x ∷ p) (y ∷ q) =
    let rest = clash p q in
    if not (fold_case x == fold_case y) then true else if fold_case x == 0 then false else rest

-- No string begins with both.
clash-str_case_prefix :
    (s p q : Bytes)
    → clash p q ≡ true
    → str_case_prefix s p (length p) ≡ true
    → str_case_prefix s q (length q) ≡ false
unfolding clash str_case_prefix
clash-str_case_prefix s [] q c h = cc
clash-str_case_prefix s (x ∷ p) [] c h = cc
clash-str_case_prefix s (x ∷ p) (y ∷ q) c h = ground (arith, clash-str_case_prefix (tail s) p q)

shorter-prefix :
    (s p q : Bytes)
    → str_case_prefix s (p ++ q) (length (p ++ q)) ≡ true
    → str_case_prefix s p (length p) ≡ true
unfolding str_case_prefix
shorter-prefix s [] q h = refl
shorter-prefix s (x ∷ p) q h = ground (arith, shorter-prefix (tail s) p q)

-- What the policy for a single argument leaves.
pub record IsSingle (test : Bytes → Bool) (argc : ℕ) (arg : Bytes) : Type 0 where
  pub count : argc ≡ 2
  pub some_bytes : 0 < length arg
  pub few_bytes : length arg ≤ 64
  pub allowed : test arg ≡ true

blocks_single-IsSingle :
    (test : Bytes → Bool) (argc : ℕ) (arg : Bytes)
    → blocks_single test argc arg ≡ false
    → IsSingle test argc arg
blocks_single-IsSingle test argc [] h = ground arith
blocks_single-IsSingle test argc (c ∷ arg) h = record {
  count = ground arith;
  some_bytes = omega arith;
  few_bytes = ground arith;
  allowed = ground arith;
}

amvstr_single :
    (cmd args : Bytes) (argc : ℕ) (arg1 : Bytes)
    → str_case_prefix cmd (codes "amvstr") 6 ≡ true
    → ja_plus_block cmd args argc arg1 ≡ false
    → blocks_single is_token_chars argc arg1 ≡ false
unfolding ja_plus_block
amvstr_single cmd args argc arg1 this h =
    let chat : str_case_prefix cmd (codes "amsay") 5 ≡ false =
      clash-str_case_prefix cmd (codes "amvstr") (codes "amsay") (unfold clash in refl) this in
    let poll : str_case_prefix cmd (codes "ampsay") 6 ≡ false =
      clash-str_case_prefix cmd (codes "amvstr") (codes "ampsay") (unfold clash in refl) this in
    rw (chat, poll, this) at h

ammap_single :
    (cmd args : Bytes) (argc : ℕ) (arg1 : Bytes)
    → str_case_prefix cmd (codes "ammap") 5 ≡ true
    → ja_plus_block cmd args argc arg1 ≡ false
    → blocks_single is_map_chars argc arg1 ≡ false
unfolding ja_plus_block
ammap_single cmd args argc arg1 this h =
    let chat : str_case_prefix cmd (codes "amsay") 5 ≡ false =
      clash-str_case_prefix cmd (codes "ammap") (codes "amsay") (unfold clash in refl) this in
    let poll : str_case_prefix cmd (codes "ampsay") 6 ≡ false =
      clash-str_case_prefix cmd (codes "ammap") (codes "ampsay") (unfold clash in refl) this in
    let var : str_case_prefix cmd (codes "amvstr") 6 ≡ false =
      clash-str_case_prefix cmd (codes "ammap") (codes "amvstr") (unfold clash in refl) this in
    rw (chat, poll, var, this) at h

module _ (e : Engine) (client : ℤ) (tokens : ℕ → Bytes) (law : IsArgv e tokens) where
  -- The buffer of 128 bytes holds a short argument whole.
  IsSingle-whole :
      (test : Bytes → Bool) → IsSingle test e.argc (e.argv 1 128) → IsSingle test e.argc (tokens 1)
  IsSingle-whole test h =
      let cut = law 1 128 in
      let whole : e.argv 1 128 ≡ tokens 1 =
        cut
        ∙ take_short 127 (tokens 1)
            (rw cut at (let s : length (e.argv 1 128) < 127 = omega (arith, h.few_bytes) in s)) in
      rw (← whole) h

  admin-block :
      str_case_prefix (e.argv 0 128) (codes "am") 2 ≡ true
      → (should_block_client_command e client).block ≡ false
      → ja_plus_block (e.argv 0 128) (gather_args e) e.argc (e.argv 1 128) ≡ false
  unfolding should_block_client_command
  admin-block admin h = rw admin at h

  -- A command that begins with amvstr, in any case, and is let through has one argument, of 1 to 64
  -- bytes, which are all letters, digits, `_` or `-`.
  pub allowed_vstr :
      str_case_prefix (e.argv 0 128) (codes "amvstr") 6 ≡ true
      → (should_block_client_command e client).block ≡ false
      → IsSingle (all_bytes is_word_char) e.argc (tokens 1)
  unfolding is_token_chars
  allowed_vstr this h =
      let admin = shorter-prefix (e.argv 0 128) (codes "am") (codes "vstr") this in
      IsSingle-whole is_token_chars (
        blocks_single-IsSingle is_token_chars e.argc (e.argv 1 128) (
          amvstr_single (e.argv 0 128) (gather_args e) e.argc (e.argv 1 128) this
            (admin-block admin h)))

  -- A command that begins with ammap, in any case, and is let through has one argument, of 1 to 64
  -- bytes, all letters, digits, `_`, `-`, `/` or `.`, which holds no `../` and is not `..`.
  pub allowed_map :
      (before rest : Bytes)
      → str_case_prefix (e.argv 0 128) (codes "ammap") 5 ≡ true
      → (should_block_client_command e client).block ≡ false
      → IsSingle (all_bytes is_path_char) e.argc (tokens 1)
        × (tokens 1 ≢ before ++ codes "../" ++ rest)
        × (tokens 1 ≢ codes "..")
  allowed_map before rest this h =
      let admin = shorter-prefix (e.argv 0 128) (codes "am") (codes "map") this in
      let one = IsSingle-whole is_map_chars (
        blocks_single-IsSingle is_map_chars e.argc (e.argv 1 128) (
          ammap_single (e.argv 0 128) (gather_args e) e.argc (e.argv 1 128) this
            (admin-block admin h))) in
      let (bytes, stays, named) = is_map_chars-climbs (tokens 1) before rest one.allowed in
      (
        record {
          count = one.count;
          some_bytes = one.some_bytes;
          few_bytes = one.few_bytes;
          allowed = bytes;
        },
        stays,
        named,
      )
