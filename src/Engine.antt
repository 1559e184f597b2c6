-- ===== src/Engine.antt =====
-- The engine as proxy/proxy.c sees it. It is not part of the repository, so its answers are the
-- fields of a record that the definitions take as an argument.
use japlusproxy.Prelude.{ℕ, Bytes, Option, none, some, List, Bool}
use japlusproxy.Prelude.Int.{ℤ, pos}

-- proxy_usercmd_t: the latest input of a client
pub record Usercmd : Type 0 where
  pub server_time : ℤ
  pub pitch : ℤ
  pub yaw : ℤ
  pub roll : ℤ
  pub buttons : ℤ
  pub weapon : ℕ
  pub forcesel : ℕ
  pub invensel : ℕ
  pub generic_cmd : ℕ
  pub forwardmove : ℤ
  pub rightmove : ℤ
  pub upmove : ℤ

-- A call of the engine, by the command's number and the arguments that the proxy looks at. A
-- string that may be a null pointer is an `Option`; for a pointer that the engine writes through
-- there is only whether it is given.
pub data Request : Type 0 where
  print : Bytes → Request
  drop_client : ℤ → Bytes → Request
  send_server_command : ℤ → Option Bytes → Request
  set_configstring : ℤ → Option Bytes → Request
  set_userinfo : ℤ → Bytes → Request
  get_usercmd : ℤ → Bool → Request
  get_entity_token : Bool → ℤ → Request
  other : ℤ → List ℤ → Request

-- What comes back: the return value, and what was written through the pointers. `cells` is the
-- memory of the token buffer, NUL and all.
pub record Answer : Type 0 where
  pub ret : ℤ
  pub usercmd : Usercmd
  pub cells : Bytes

pub record Engine : Type 0 where
  pub answer : Request → Answer
  -- G_ARGC, and G_ARGV by the token's number and the size of the buffer
  pub argc : ℕ
  pub argv : ℕ → ℕ → Bytes
  -- G_CVAR_VARIABLE_INTEGER_VALUE
  pub cvar : Bytes → ℤ
  -- G_GET_USERINFO by the client and the size of the buffer
  pub userinfo : ℤ → ℕ → Bytes

-- Proxy_CvarInt, by g_engine, which may not be set yet, and the name, which may be null.
unfoldable pub proxy_cvar_int : Option Engine → Option Bytes → ℤ
proxy_cvar_int none name = pos 0
proxy_cvar_int (some e) none = pos 0
proxy_cvar_int (some e) (some name) = e.cvar name
