-- ===== src/VmMain.antt =====
-- vmMain of proxy/proxy.c: what the engine asks of the game passes through here. Whether the real
-- library has been loaded is an argument, and so is the real vmMain.
pub mod Gate
pub mod Userinfo
pub mod Traffic
use japlusproxy.Prelude.{
  ℕ, Bytes, codes, Bool, true, false, ◌||◌, Option, some, List, [], ◌∷◌, ◌++◌, if◌then◌else◌,
}
use japlusproxy.Prelude.Int.{ℤ, pos, negsuc, ltb_ℤ, leb_ℤ}
use japlusproxy.Engine.{Request, print, drop_client, send_server_command, set_userinfo, Engine}
use japlusproxy.Syscall.{proxy_syscall}
use japlusproxy.Commands.{should_block_client_command}
use japlusproxy.Commands.Vanilla.{Verdict}
use japlusproxy.Info.Sanitize.{
  Sanitized, kick, clean, fixed, userinfo_looks_evil, sanitize_userinfo, userinfo_size,
}

-- A call of the engine, by the client it is about. `other` stands for the commands that have no
-- case, GAME_CLIENT_CONNECT among them.
pub data GameCall : Type 0 where
  client_command : ℤ → GameCall
  client_userinfo_changed : ℤ → GameCall
  client_begin : ℤ → GameCall
  other : ℤ → List ℤ → GameCall

-- What the engine gets back, the calls that reached it meanwhile, and whether the game was called.
pub record Outcome : Type 0 where
  pub ret : ℤ
  pub sent : List Request
  pub forwarded : Bool

module _ (e : Engine) (game : GameCall → ℤ) where
  abbrev filtered : Request → List Request
  filtered r = (proxy_syscall (some e) r).sent

  abbrev refuse : List Request → Outcome
  refuse sent = record { ret = pos 0; sent = sent; forwarded = false }

  abbrev pub pass : GameCall → List Request → Outcome
  pass call sent = record { ret = game call; sent = sent; forwarded = true }

  pub on_command : ℤ → Outcome
  on_command client =
      let v = should_block_client_command e client in
      if v.block
      then refuse (v.sent ++ filtered (print (codes "[japlus_proxy] blocked client command\n")))
      else pass (client_command client) v.sent

  abbrev pub on_sanitized : ℤ → Sanitized → Outcome
  on_sanitized client kick = refuse (
      filtered (
        send_server_command (negsuc 0)
          (some (codes "chat \"^3(Anti-Cheat system) cheating detected^7\"")))
      ++ filtered (drop_client client (codes "(Anti-Cheat system) cheating detected")))
  on_sanitized client clean = pass (client_userinfo_changed client) []
  on_sanitized client (fixed ui) =
      pass (client_userinfo_changed client) (set_userinfo client ui ∷ [])

  pub on_userinfo : ℤ → Outcome
  on_userinfo client =
      let ui = e.userinfo client userinfo_size in
      if userinfo_looks_evil ui
      then refuse (filtered (drop_client client (codes "bad userinfo")))
      else on_sanitized client (sanitize_userinfo ui)

  pub on_begin : ℤ → Outcome
  on_begin client =
      if ltb_ℤ client (pos 0) || leb_ℤ (pos 32) client
      then refuse (filtered (print (codes "[japlus_proxy] blocked begin with bad clientNum\n")))
      else pass (client_begin client) []

  unfoldable pub vm_main : Bool → GameCall → Outcome
  unfolding on_command on_userinfo on_begin
  vm_main false call = record { ret = negsuc 0; sent = []; forwarded = false }
  vm_main true (client_command client) = on_command client
  vm_main true (client_userinfo_changed client) = on_userinfo client
  vm_main true (client_begin client) = on_begin client
  vm_main true (other cmd args) = pass (other cmd args) []
