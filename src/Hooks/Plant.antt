-- ===== src/Hooks/Plant.antt =====
-- PlantHook of proxy/patch.c: the whole sequence for one target. The lines of the log are left out.
pub mod Counts
pub mod Sound
pub mod Arms
pub mod Restore
pub mod Apart
pub mod RoundTrip
use japlusproxy.Prelude.{
  ℕ, ◌+◌, Bytes, Bool, true, false, not, ◌&&◌, Option, none, some, List, ◌==◌, if◌then◌else◌,
}
use japlusproxy.Hooks.Patch.{Platform}
use japlusproxy.Hooks.Jumps.{Machine, hook_auto}
use japlusproxy.Hooks.Inventory.{Entry, track_hook, hook_armed}
use japlusproxy.Hooks.Length.{hook_len_ok}

-- Memory, the inventory, and g_hook_try and g_hook_ok.
pub record World : Type 0 where
  pub machine : Machine
  pub planted : List Entry
  pub tried : ℕ
  pub armed : ℕ

abbrev is_some : Option ℕ → Bool
is_some none = false
is_some (some a) = true

-- The part behind the check of the length; the answer is what is written to `tramp`.
unfoldable pub plant_checked : Platform → Bytes → ℕ → ℕ → ℕ → World → World × Option ℕ
plant_checked p name addr len detour w =
    let planted = track_hook w.machine.memory name addr len w.planted in
    let (machine, tramp) = hook_auto p addr detour len w.machine in
    let ok = is_some tramp && hook_armed machine.memory name detour planted in
    (
      record {
        machine = machine;
        planted = planted;
        tried = w.tried + 1;
        armed = if ok then w.armed + 1 else w.armed;
      },
      tramp,
    )

-- A null address is a target that was not found.
unfoldable pub plant_hook : Platform → Bytes → Option ℕ → ℕ → ℕ → World → World × Option ℕ
unfolding plant_checked
plant_hook p name none len detour w = (w, none)
plant_hook p name (some addr) len detour w =
    if addr == 0
    then (w, none)
    else if not (hook_len_ok p w.machine.memory addr len)
    then (record w { tried = w.tried + 1 }, none)
    else plant_checked p name addr len detour w
