-- ===== src/Syscall.antt =====
-- Proxy_Syscall of proxy/proxy.c: what the game asks of the engine passes through here.
pub mod Guards
use japlusproxy.Prelude.{
  ℕ, zero, suc, ◌-◌, Bytes, codes, Bool, true, false, not, ◌||◌, Option, none, some, List, [], ◌∷◌,
  length, set, ltb, leb, ◌==◌, if◌then◌else◌,
}
use japlusproxy.Prelude.Int.{ℤ, pos, negsuc, ltb_ℤ, ◌==ℤ◌}
use japlusproxy.Engine.{
  Usercmd, Request, print, drop_client, send_server_command, set_configstring, set_userinfo,
  get_usercmd, get_entity_token, other, Answer, Engine,
}

-- What the game gets back, and the calls that reached the engine, in order.
pub record Reply : Type 0 where
  pub ret : ℤ
  pub sent : List Request
  pub usercmd : Option Usercmd
  pub cells : Bytes

abbrev pub blocked : List Request → Reply
blocked sent = record { ret = pos 0; sent = sent; usercmd = none; cells = [] }

abbrev forward : Engine → Request → Reply
forward e r = record {
  ret = (e.answer r).ret;
  sent = r ∷ [];
  usercmd = none;
  cells = (e.answer r).cells;
}

abbrev fp_levitation : ℕ
fp_levitation = 1

abbrev num_force_powers : ℕ
num_force_powers = 19

pub clean_usercmd : Usercmd → Usercmd
clean_usercmd u = record u {
  forcesel =
      if u.forcesel == fp_levitation || leb num_force_powers u.forcesel then 0xFF else u.forcesel;
  roll = pos 0;
}

-- The C string at the start of a buffer.
pub c_string : Bytes → Bytes
c_string [] = []
c_string (zero ∷ cells) = []
c_string (suc c ∷ cells) = suc c ∷ c_string cells

-- `if (strlen(buf) > cap) { buf[cap] = '\0'; … }`
abbrev pub cut_cells : ℕ → Bytes → Bytes × Bool
cut_cells limit cells =
    if ltb limit (length (c_string cells)) then (set cells limit 0, true) else (cells, false)

-- The buffer after the end is marked, and whether the token was cut. `size` is positive.
pub cap_token : ℕ → Bytes → Bytes × Bool
cap_token size cells =
    let ended = set cells (size - 1) 0 in
    cut_cells (if ltb (size - 1) 1023 then size - 1 else 1023) ended

abbrev truncated_notice : Request
truncated_notice = print (codes "[japlus_proxy] truncated overlong entity token\n")

abbrev pub capped : Engine → Request → ℕ → Reply
capped e r size =
    let (cells, cut) = cap_token size (e.answer r).cells in
    record {
      ret = (e.answer r).ret;
      sent = if cut then r ∷ truncated_notice ∷ [] else r ∷ [];
      usercmd = none;
      cells = cells;
    }

-- `if (ret) { … if (buf && size > 0) … }`
pub entity_token : Engine → Bool → ℤ → Reply
unfolding cap_token
entity_token e false size = forward e (get_entity_token false size)
entity_token e true (negsuc n) = forward e (get_entity_token true (negsuc n))
entity_token e true (pos zero) = forward e (get_entity_token true (pos 0))
entity_token e true (pos (suc n)) =
    let r = get_entity_token true (pos (suc n)) in
    if (e.answer r).ret ==ℤ pos 0 then forward e r else capped e r (suc n)

usercmd_reply : Engine → ℤ → Bool → Reply
unfolding clean_usercmd
usercmd_reply e client given =
    let r = get_usercmd client given in
    record {
      ret = (e.answer r).ret;
      sent = r ∷ [];
      usercmd = if given then some (clean_usercmd (e.answer r).usercmd) else none;
      cells = [];
    }

abbrev longer_than : ℕ → Option Bytes → Bool
longer_than n none = false
longer_than n (some s) = ltb n (length s)

-- With the engine at hand; `proxy_syscall` adds the test that it is.
pub filter_call : Engine → Request → Reply
unfolding usercmd_reply entity_token
filter_call e (get_usercmd client given) = usercmd_reply e client given
filter_call e (get_entity_token given size) = entity_token e given size
filter_call e (send_server_command target text) =
    if longer_than 1022 text
    then blocked (print (codes "[japlus_proxy] blocked oversize servercommand\n") ∷ [])
    else forward e (send_server_command target text)
filter_call e (set_configstring index text) =
    if ltb_ℤ index (pos 0) || ltb_ℤ (pos 2048) index
    then blocked (print (codes "[japlus_proxy] blocked bad configstring index\n") ∷ [])
    else if longer_than 8191 text
    then blocked []
    else forward e (set_configstring index text)
filter_call e r = forward e r

unfoldable pub proxy_syscall : Option Engine → Request → Reply
unfolding filter_call
proxy_syscall none r = blocked []
proxy_syscall (some e) r = filter_call e r
