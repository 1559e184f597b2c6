-- ===== src/VmMain/Traffic.antt =====
-- All that reaches the engine, over any calls of vmMain of proxy/proxy.c and what the game asks for
-- in them.
use japlusproxy.Prelude.{
  codes, Bool, true, false, ◌||◌, some, List, [], ◌∷◌, ◌++◌, if-holds, if◌then◌else◌,
}
use japlusproxy.Prelude.Int.{ℤ, pos, negsuc, ltb_ℤ, leb_ℤ}
use japlusproxy.Engine.{Request, print, drop_client, send_server_command, Engine}
use japlusproxy.Text.{str_case_prefix}
use japlusproxy.Syscall.{proxy_syscall}
use japlusproxy.Syscall.Guards.{AllFit, proxy_syscall-AllFit}
use japlusproxy.Commands.{should_block_client_command}
use japlusproxy.Commands.Vanilla.{
  Verdict, vanilla_block, kick_cheater, gc_blocks, npc_blocks, team_blocks,
}
use japlusproxy.Info.Sanitize.{
  Sanitized, kick, clean, fixed, userinfo_looks_evil, sanitize_userinfo, userinfo_size,
}
use japlusproxy.VmMain.{
  GameCall, client_command, client_userinfo_changed, client_begin, other, Outcome, vm_main,
  on_command, on_userinfo, on_begin, on_sanitized,
}

-- A call of vmMain: the engine as it is then, whether the game is loaded, what it answers, and what
-- it asks for while it runs.
pub record Visit : Type 0 where
  pub engine : Engine
  pub loaded : Bool
  pub game : GameCall → ℤ
  pub call : GameCall
  pub requests : List Request

-- What reaches the engine of the requests.
pub asked : Engine → List Request → List Request
asked e [] = []
asked e (r ∷ rest) = (proxy_syscall (some e) r).sent ++ asked e rest

-- What reaches the engine in the calls of a list.
pub traffic : List Visit → List Request
unfolding asked
traffic [] = []
traffic (v ∷ visits) =
    let o = vm_main v.engine v.game v.loaded v.call in
    let inside = if o.forwarded then asked v.engine v.requests else [] in
    o.sent ++ (inside ++ traffic visits)

AllFit-append : (a b : List Request) → AllFit a → AllFit b → AllFit (a ++ b)
AllFit-append [] b ha hb = hb
AllFit-append (r ∷ a) b ha hb = (ha.0, AllFit-append a b ha.1 hb)

asked-AllFit : (e : Engine) (requests : List Request) → AllFit (asked e requests)
unfolding asked
asked-AllFit e [] = tt
asked-AllFit e (r ∷ rest) =
    AllFit-append (proxy_syscall (some e) r).sent (asked e rest) (proxy_syscall-AllFit (some e) r)
      (asked-AllFit e rest)

asked_two :
    (e : Engine) (a b : Request)
    → AllFit ((proxy_syscall (some e) a).sent ++ (proxy_syscall (some e) b).sent)
asked_two e a b =
    AllFit-append (proxy_syscall (some e) a).sent (proxy_syscall (some e) b).sent
      (proxy_syscall-AllFit (some e) a) (proxy_syscall-AllFit (some e) b)

kick_cheater-AllFit : (e : Engine) (client : ℤ) → AllFit (kick_cheater e client)
unfolding kick_cheater
kick_cheater-AllFit e client =
    asked_two e
      (send_server_command (negsuc 0)
        (some (codes "chat \"^3(Anti-Cheat system) cheating detected^7\"")))
      (drop_client client (codes "(Anti-Cheat system) cheating detected"))

blocked-AllFit : (e : Engine) (client : ℤ) → AllFit (should_block_client_command e client).sent
unfolding should_block_client_command vanilla_block
blocked-AllFit e client =
    if-holds (λ (v : Verdict). AllFit v.sent) (str_case_prefix (e.argv 0 128) (codes "am") 2)
      (λ _. tt)
      (λ _.
        if-holds (λ (v : Verdict). AllFit v.sent)
          (str_case_prefix (e.argv 0 128) (codes "jkaDST_") 7) (λ _. kick_cheater-AllFit e client)
          (λ _.
            if-holds (λ (v : Verdict). AllFit v.sent)
              (gc_blocks e (e.argv 0 128) (e.argv 1 128)
                || npc_blocks e (e.argv 0 128)
                || team_blocks (e.argv 0 128) (e.argv 1 128))
              (λ _. tt) (λ _. tt)))

module _ (e : Engine) (game : GameCall → ℤ) where
  on_command-AllFit : (client : ℤ) → AllFit (on_command e game client).sent
  unfolding on_command
  on_command-AllFit client =
      let v = should_block_client_command e client in
      let notice = print (codes "[japlus_proxy] blocked client command\n") in
      if-holds (λ (o : Outcome). AllFit o.sent) v.block
        (λ _.
          AllFit-append v.sent (proxy_syscall (some e) notice).sent (blocked-AllFit e client)
            (proxy_syscall-AllFit (some e) notice))
        (λ _. blocked-AllFit e client)

  on_sanitized-AllFit : (client : ℤ) (s : Sanitized) → AllFit (on_sanitized e game client s).sent
  on_sanitized-AllFit client kick =
      asked_two e
        (send_server_command (negsuc 0)
          (some (codes "chat \"^3(Anti-Cheat system) cheating detected^7\"")))
        (drop_client client (codes "(Anti-Cheat system) cheating detected"))
  on_sanitized-AllFit client clean = tt
  on_sanitized-AllFit client (fixed ui) = (tt, tt)

  on_userinfo-AllFit : (client : ℤ) → AllFit (on_userinfo e game client).sent
  unfolding on_userinfo
  on_userinfo-AllFit client =
      let ui = e.userinfo client userinfo_size in
      if-holds (λ (o : Outcome). AllFit o.sent) (userinfo_looks_evil ui)
        (λ _. proxy_syscall-AllFit (some e) (drop_client client (codes "bad userinfo")))
        (λ _. on_sanitized-AllFit client (sanitize_userinfo ui))

  vm_main-AllFit : (loaded : Bool) (call : GameCall) → AllFit (vm_main e game loaded call).sent
  unfolding vm_main on_begin
  vm_main-AllFit false call = tt
  vm_main-AllFit true (client_command client) = on_command-AllFit client
  vm_main-AllFit true (client_userinfo_changed client) = on_userinfo-AllFit client
  vm_main-AllFit true (client_begin client) =
      if-holds (λ (o : Outcome). AllFit o.sent) (ltb_ℤ client (pos 0) || leb_ℤ (pos 32) client)
        (λ _.
          proxy_syscall-AllFit (some e)
            (print (codes "[japlus_proxy] blocked begin with bad clientNum\n")))
        (λ _. tt)
  vm_main-AllFit true (other cmd args) = tt

-- Over any calls of vmMain, and whatever the game asks for in them, each server command that reaches
-- the engine has at most 1022 bytes, and each configstring an index from 0 to 2048 and fewer than
-- 8192 bytes.
pub traffic-AllFit : (visits : List Visit) → AllFit (traffic visits)
unfolding traffic
traffic-AllFit [] = tt
traffic-AllFit (v ∷ visits) =
    let o = vm_main v.engine v.game v.loaded v.call in
    let inside = if o.forwarded then asked v.engine v.requests else [] in
    AllFit-append o.sent (inside ++ traffic visits) (vm_main-AllFit v.engine v.game v.loaded v.call)
      (AllFit-append inside (traffic visits)
        (if-holds AllFit o.forwarded (λ _. asked-AllFit v.engine v.requests) (λ _. tt))
        (traffic-AllFit visits))
