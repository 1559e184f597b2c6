-- ===== src/Tests/Requests.antt =====
-- The filters between the engine and the game on a few calls.
use japlusproxy.Prelude.{
  ℕ, ◌+◌, ◌-◌, ◌≤◌, ◌≡◌, ◌≢◌, refl, Bytes, codes, true, some, List, [], ◌∷◌, ◌++◌, arith, length,
  take_all, get_or, take, min, replicate,
}
use japlusproxy.Prelude.Int.{ℤ, pos}
use japlusproxy.Engine.{
  Usercmd, Request, send_server_command, set_configstring, get_usercmd, get_entity_token, Engine,
}
use japlusproxy.Text.{str_case_eq}
use japlusproxy.Syscall.{c_string, proxy_syscall}
use japlusproxy.Info.{until_slash, from_slash, same_key, next_pair, value_from, info_value}
use japlusproxy.Info.Names.{clean_name}
use japlusproxy.Info.Sanitize.{same_bytes, userinfo_looks_evil, sanitize_userinfo, userinfo_size}
use japlusproxy.Info.Sanitize.Run.{AllRead}
use japlusproxy.Info.Sanitize.Game.{policy}
use japlusproxy.VmMain.Userinfo.{IsWhole, stored, vm_main-AllRead}
use japlusproxy.Syscall.Guards.{IsCleaned, AllFit, get_usercmd-IsCleaned, entity_token-capped}
use japlusproxy.VmMain.Traffic.{Visit, traffic, traffic-AllFit}
use japlusproxy.VmMain.{GameCall, client_command, client_userinfo_changed, vm_main}

-- Input that selects levitation and rolls the view.
abbrev input : Usercmd
input = record {
  server_time = pos 500;
  pitch = pos 1;
  yaw = pos 2;
  roll = pos 3;
  buttons = pos 0;
  weapon = 4;
  forcesel = 1;
  invensel = 0;
  generic_cmd = 0;
  forwardmove = pos 127;
  rightmove = pos 0;
  upmove = pos 0;
}

-- An engine with eight slots, where a client has sent `argc` tokens; each token that it delivers to
-- the game is "worldspawn".
abbrev pub engine : (ℕ → Bytes) → ℕ → Engine
engine tokens argc = record {
  answer =
      λ r. record { ret = pos 1; usercmd = input; cells = codes "worldspawn" ++ replicate 6 0 };
  argc = argc;
  argv = λ n size. take (size - 1) (tokens n);
  cvar = λ name. pos 8;
  userinfo = λ client size. codes "\\name\\Kyle";
}

abbrev pub say : ℕ → Bytes
say n = get_or (codes "say" ∷ codes "hello" ∷ codes "there" ∷ []) n []

abbrev pub saying : Engine
saying = engine say 3

get_usercmd-IsCleaned_example :
    (u : Usercmd) × ((proxy_syscall (some saying) (get_usercmd (pos 2) true)).usercmd ≡ some u)
    × IsCleaned (saying.answer (get_usercmd (pos 2) true)).usercmd u
    × ((proxy_syscall (some saying) (get_usercmd (pos 2) true)).sent
        ≡ get_usercmd (pos 2) true ∷ [])
get_usercmd-IsCleaned_example = get_usercmd-IsCleaned saying (pos 2)

abbrev shout : Request
shout = send_server_command (pos 0) (some (replicate 1500 b'a'))

one_ne_zero : (saying.answer (get_entity_token true (pos 8))).ret ≢ pos 0
one_ne_zero = λ p. cc

entity_token-capped_example :
    c_string (proxy_syscall (some saying) (get_entity_token true (pos 8))).cells
    ≡ take (min 7 1023) (c_string (saying.answer (get_entity_token true (pos 8))).cells)
entity_token-capped_example = entity_token-capped saying 7 (omega arith) one_ne_zero

abbrev answers : GameCall → ℤ
answers call = pos 1

changes_pass : (vm_main saying answers true (client_userinfo_changed (pos 2))).forwarded ≡ true
unfolding vm_main userinfo_looks_evil sanitize_userinfo info_value value_from next_pair from_slash
    same_key until_slash str_case_eq same_bytes clean_name
changes_pass = refl

-- An engine that cuts at its buffer of 1024 bytes.
abbrev kept : Bytes → Bytes
kept s = take 1023 s

kept-IsWhole : IsWhole kept
kept-IsWhole s h = take_all 1023 s (omega arith)

vm_main-AllRead_example :
    AllRead policy (
      stored kept
        (pos 2)
        (saying.userinfo (pos 2) userinfo_size)
        (vm_main saying answers true (client_userinfo_changed (pos 2))).sent)
    × (length (
          stored kept
            (pos 2)
            (saying.userinfo (pos 2) userinfo_size)
            (vm_main saying answers true (client_userinfo_changed (pos 2))).sent)
        ≤ length (saying.userinfo (pos 2) userinfo_size) + 89)
vm_main-AllRead_example =
    vm_main-AllRead saying answers kept (pos 2) kept-IsWhole (omega arith) changes_pass

-- A player speaks, and the game asks for a line that is too long; then another changes his userinfo.
abbrev visits : List Visit
visits =
    record {
      engine = saying;
      loaded = true;
      game = answers;
      call = client_command (pos 0);
      requests = shout ∷ set_configstring (pos 21) (some (codes "yavin")) ∷ [];
    }
    ∷ record {
      engine = saying;
      loaded = true;
      game = answers;
      call = client_userinfo_changed (pos 2);
      requests = [];
    }
    ∷ []

traffic-AllFit_example : AllFit (traffic visits)
traffic-AllFit_example = traffic-AllFit visits
