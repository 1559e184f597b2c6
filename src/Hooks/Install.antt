-- ===== src/Hooks/Install.antt =====
-- ModuleBase and InstallPatches of proxy/patch.c. The first loop of InstallPatches only writes the
-- log, as do its first and last lines; they are left out.
pub mod Armed
use japlusproxy.Prelude.{
  ℕ, Bytes, codes, Bool, true, false, Option, none, some, [], ◌∷◌, ◌==◌, if◌then◌else◌,
}
use japlusproxy.Memory.{Memory}
use japlusproxy.Targets.{resolve_engine_abs}
use japlusproxy.Siege.{Target, find_target, resolve_target}
use japlusproxy.Hooks.Patch.{Platform}
use japlusproxy.Hooks.Plant.{World, plant_hook}

-- What dladdr tells of a module; null is 0, or none for a string.
pub record ModuleInfo : Type 0 where
  pub fbase : ℕ
  pub fname : Option Bytes

-- The calls of the dynamic linker, and getenv. None is a null pointer, or a failure.
pub record Linker : Type 0 where
  pub open_library : Bytes → Option ℕ
  pub symbol : ℕ → Bytes → Option ℕ
  pub module_of : ℕ → Option ModuleInfo
  pub variable : Bytes → Option Bytes

abbrev base_of : Option ModuleInfo → Option ℕ
base_of none = none
base_of (some i) = if i.fbase == 0 then none else some i.fbase

pub module_base : Linker → ℕ → Option ℕ
module_base l address = base_of (l.module_of address)

-- The addresses of the four detours.
pub record Detours : Type 0 where
  pub siege_find : ℕ
  pub connless : ℕ
  pub done_download : ℕ
  pub rcon : ℕ

-- g_tramp_siegeFind, g_tramp_connless, g_tramp_donedl and g_tramp_rcon
pub record Tramps : Type 0 where
  pub siege_find : Option ℕ
  pub connless : Option ℕ
  pub done_download : Option ℕ
  pub rcon : Option ℕ

abbrev pub no_tramps : Tramps
no_tramps = record { siege_find = none; connless = none; done_download = none; rcon = none }

abbrev pub siege_name : Bytes
siege_name = codes "BG_SiegeFindClassByName"

abbrev pub connless_name : Bytes
connless_name = codes "SV_ConnectionlessPacket"

abbrev pub donedl_name : Bytes
donedl_name = codes "SV_DoneDownload_f"

abbrev pub rcon_name : Bytes
rcon_name = codes "SVC_RemoteCommand"

pub resolve_engine_connless : Memory → Option ℕ
resolve_engine_connless mem =
    resolve_engine_abs mem 0xED64 (some (0x55 ∷ 0x8B ∷ 0xEC ∷ 0x83 ∷ 0xEC ∷ 0x20 ∷ [])) 0x0819D654
      0x400

pub resolve_engine_donedl : Memory → Option ℕ
resolve_engine_donedl mem =
    resolve_engine_abs mem 0x6AA4 (some (0x55 ∷ 0x8B ∷ 0xEC ∷ 0x83 ∷ 0xEC ∷ 0x10 ∷ [])) 0x0819B5B8
      0x100

pub resolve_engine_rcon : Memory → Option ℕ
resolve_engine_rcon mem =
    resolve_engine_abs mem 0xEB14 (some (0x55 ∷ 0x8B ∷ 0xEC ∷ 0x81 ∷ 0xEC ∷ 0x20 ∷ [])) 0x0819D5B0
      0x400

-- `t ? … : …`
abbrev pub plant_siege : Platform → ℕ → ℕ → Option Target → World → World × Option ℕ
plant_siege p base detour none w = plant_hook p siege_name none 0 detour w
plant_siege p base detour (some t) w =
    plant_hook p t.name (resolve_target w.machine.memory base t) t.prefix_len detour w

-- The environment switches the guard on floods off.
abbrev pub plant_connless : Platform → ℕ → Option Bytes → World → World × Option ℕ
plant_connless p detour (some off) w = (w, none)
plant_connless p detour none w =
    plant_hook p connless_name (resolve_engine_connless w.machine.memory) 6 detour w

-- The four hooks, in their order.
pub plant_four : Platform → Detours → ℕ → Option Bytes → World → World × Tramps
plant_four p d base off w =
    let (w1, siege_find) = plant_siege p base d.siege_find (find_target siege_name) w in
    let (w2, connless) = plant_connless p d.connless off w1 in
    let (w3, done_download) =
      plant_hook p donedl_name (resolve_engine_donedl w2.machine.memory) 6 d.done_download w2 in
    let (w4, rcon) = plant_hook p rcon_name (resolve_engine_rcon w3.machine.memory) 9 d.rcon w3 in
    (
      w4,
      record {
        siege_find = siege_find;
        connless = connless;
        done_download = done_download;
        rcon = rcon;
      },
    )

abbrev or_handle : Option ℕ → ℕ → ℕ
or_handle none handle = handle
or_handle (some vm) handle = vm

-- The hooks, unless the module has no base or the environment switches them off.
abbrev pub plant_from :
    Platform → Linker → Detours → Option ℕ → Option Bytes → World → World × Tramps
plant_from p l d none no_hooks w = (w, no_tramps)
plant_from p l d (some base) (some off) w = (w, no_tramps)
plant_from p l d (some base) none w = plant_four p d base (l.variable (codes "JAPLUS_NO_OOB")) w

unfoldable pub install_patches : Platform → Linker → Detours → ℕ → World → World × Tramps
install_patches p l d handle w =
    plant_from p l d (module_base l (or_handle (l.symbol handle (codes "vmMain")) handle))
      (l.variable (codes "JAPLUS_NO_HOOKS")) w
