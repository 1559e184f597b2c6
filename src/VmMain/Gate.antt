-- ===== src/VmMain/Gate.antt =====
-- What reaches the game.
use japlusproxy.Prelude.{
  codes, Option, some, ◌<◌, ◌≡◌, ◌≢◌, refl, Bytes, Bool, true, false, arith, length, inl, inr,
  Bool-cases, if◌then◌else◌,
}
use japlusproxy.Prelude.Int.{ℤ, pos, negsuc, ◌≤ℤ◌, ◌<ℤ◌}
use japlusproxy.Engine.{Engine}
use japlusproxy.Commands.{should_block_client_command}
use japlusproxy.Text.Classes.{AreAlike, str_case_eq-apart}
use japlusproxy.Info.{info_value}
use japlusproxy.Info.Sanitize.{
  is_cheater, Sanitized, kick, clean, fixed, userinfo_looks_evil, sanitize_userinfo, userinfo_size,
}
use japlusproxy.VmMain.{
  GameCall, client_command, client_userinfo_changed, client_begin, other, Outcome, vm_main,
  on_userinfo, on_sanitized,
}

-- The model of a userinfo is not "darksidetool", in any case of its letters.
abbrev pub NotDarkside : Bytes → Type 0
NotDarkside ui =
    (v : Bytes) → info_value ui (codes "model") 512 ≡ some v → AreAlike v (codes "darksidetool") → ⊥

-- What the engine's state must be for the game to see a call.
abbrev pub MayPass : Engine → GameCall → Type 0
MayPass e (client_command client) = (should_block_client_command e client).block ≡ false
MayPass e (client_userinfo_changed client) =
    (0 < length (e.userinfo client userinfo_size))
    × (length (e.userinfo client userinfo_size) < 1024)
    × (sanitize_userinfo (e.userinfo client userinfo_size) ≢ kick)
    × NotDarkside (e.userinfo client userinfo_size)
MayPass e (client_begin client) = (pos 0 ≤ℤ client) × (client <ℤ pos 32)
MayPass e (other cmd args) = Unit

not_evil : (ui : Bytes) → userinfo_looks_evil ui ≡ false → (0 < length ui) × (length ui < 1024)
unfolding userinfo_looks_evil
not_evil ui h = (ground arith, ground arith)

is_cheater-apart :
    (o : Option Bytes) (v : Bytes)
    → is_cheater o ≡ false
    → o ≡ some v
    → AreAlike v (codes "darksidetool")
    → ⊥
is_cheater-apart o v h e alike =
    str_case_eq-apart v (codes "darksidetool") (codes "s") (omega arith) (rw e at h) alike

sanitize_userinfo-NotDarkside : (ui : Bytes) → sanitize_userinfo ui ≢ kick → NotDarkside ui
unfolding sanitize_userinfo
sanitize_userinfo-NotDarkside ui pass v e =
    elim (Bool-cases (is_cheater (info_value ui (codes "model") 512))) [
      | inl cheats ↦ absurd (pass (rw cheats refl))
      | inr honest ↦ is_cheater-apart (info_value ui (codes "model") 512) v honest e
    ]

module _ (e : Engine) (game : GameCall → ℤ) where
  kick_stops :
      (client : ℤ) (s : Sanitized) → (on_sanitized e game client s).forwarded ≡ true → s ≢ kick
  kick_stops client kick h = cc
  kick_stops client clean h = λ p. cc
  kick_stops client (fixed ui) h = λ p. cc

  on_userinfo-MayPass :
      (client : ℤ)
      → (on_userinfo e game client).forwarded ≡ true
      → MayPass e (client_userinfo_changed client)
  unfolding on_userinfo
  on_userinfo-MayPass client h =
      let ui = e.userinfo client userinfo_size in
      elim (Bool-cases (userinfo_looks_evil ui)) [
        | inl evil ↦ cc (rw evil at h)
        | inr fair ↦
            let (some_bytes, few_bytes) = not_evil ui fair in
            let pass = kick_stops client (sanitize_userinfo ui) (rw fair at h) in
            (some_bytes, few_bytes, pass, sanitize_userinfo-NotDarkside ui pass)
      ]

  -- The answer of the filter: the game's where it was called, else 0.
  abbrev answer : GameCall → Outcome → ℤ
  answer call r = if r.forwarded then game call else pos 0

  ret-on_sanitized :
      (client : ℤ) (s : Sanitized)
      → (on_sanitized e game client s).ret
        ≡ answer (client_userinfo_changed client) (on_sanitized e game client s)
  ret-on_sanitized client kick = refl
  ret-on_sanitized client clean = refl
  ret-on_sanitized client (fixed ui) = refl

  ret-on_userinfo :
      (client : ℤ)
      → (on_userinfo e game client).ret
        ≡ answer (client_userinfo_changed client) (on_userinfo e game client)
  unfolding on_userinfo
  ret-on_userinfo client =
      let ui = e.userinfo client userinfo_size in
      elim (Bool-cases (userinfo_looks_evil ui)) [
        | inl evil ↦ rw evil refl
        | inr fair ↦ rw fair (ret-on_sanitized client (sanitize_userinfo ui))
      ]

  -- The game is called only for a command that is not blocked, a userinfo of 1 to 1023 bytes for
  -- which SanitizeUserinfo does not kick and whose model is not "darksidetool", or a slot from 0 to
  -- 31; any other call may pass.
  pub vm_main-MayPass :
      (loaded : Bool) (call : GameCall)
      → (vm_main e game loaded call).forwarded ≡ true
      → MayPass e call
  unfolding vm_main
  vm_main-MayPass false call h = cc
  vm_main-MayPass true (client_command client) h = ground arith
  vm_main-MayPass true (client_userinfo_changed client) h = on_userinfo-MayPass client h
  vm_main-MayPass true (client_begin client) h = (ground arith, ground arith)
  vm_main-MayPass true (other cmd args) h = tt

  -- Where the game is not called, the engine gets 0, or -1 if the game could not be loaded; where it
  -- is called, the engine gets its answer.
  pub ret-vm_main :
      (loaded : Bool) (call : GameCall)
      → (vm_main e game loaded call).ret ≡ (
          if (vm_main e game loaded call).forwarded
          then game call
          else (if loaded then pos 0 else negsuc 0))
  unfolding vm_main
  ret-vm_main false call = refl
  ret-vm_main true (client_command client) = ground arith
  ret-vm_main true (client_userinfo_changed client) = ret-on_userinfo client
  ret-vm_main true (client_begin client) = ground arith
  ret-vm_main true (other cmd args) = refl
