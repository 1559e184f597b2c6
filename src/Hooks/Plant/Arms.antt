-- ===== src/Hooks/Plant/Arms.antt =====
-- When PlantHook counts a hook as armed.
use japlusproxy.Prelude.{
  ℕ, ◌+◌, ◌^◌, ◌≤◌, ◌<◌, ◌≡◌, ◌≢◌, refl, Bytes, true, false, ◌||◌, some, List, [], ◌∷◌, ◌++◌, arith,
  length, ltb, leb, ◌==◌,
}
use japlusproxy.Memory.{Memory, read}
use japlusproxy.Hooks.Patch.{Platform}
use japlusproxy.Hooks.Jumps.{hook_auto}
use japlusproxy.Hooks.Jumps.Lands.{lands}
use japlusproxy.Hooks.Jumps.Planted.{IsApart}
use japlusproxy.Hooks.Jumps.Works.{Ready, hook_auto-Ready}
use japlusproxy.Hooks.Inventory.{Entry, track_hook, points_to, hook_armed}
use japlusproxy.Hooks.Length.{hook_len_ok}
use japlusproxy.Hooks.Plant.{World, plant_checked, plant_hook}
use japlusproxy.Hooks.Plant.Counts.{NoName}
use japlusproxy.Hooks.Plant.Sound.{hook_armed-append}

-- A hook that can be planted, tracked and read back.
pub record Plantable (p : Platform) (name : Bytes) (a len detour : ℕ) (w : World) (tr : ℕ)
    : Type 0 where
  pub ready : Ready p a detour len w.machine tr
  pub whole : hook_len_ok p w.machine.memory a len ≡ true
  pub apart : IsApart a len tr (len + 5)
  pub reach : detour < 2 ^ 32
  pub span : a + len < 2 ^ 32
  pub taken : len ≤ 8
  pub room : length w.planted < 8
  pub new : NoName name w.planted

lands-points_to :
    (mem : Memory) (t detour : ℕ)
    → mem t ≢ 0xB8
    → lands mem t ≡ some detour
    → points_to mem t detour ≡ true
unfolding lands points_to
lands-points_to mem t detour other h = ground arith

tracked :
    (mem : Memory) (name : Bytes) (a len : ℕ) (es : List Entry)
    → a ≢ 0
    → 0 < len
    → len ≤ 8
    → length es < 8
    → track_hook mem name a len es
      ≡ es ++ record { name = name; target = a; orig = read mem a len } ∷ []
unfolding track_hook
tracked mem name a len es there some_len short room =
    let taken : (leb 8 (length es) || a == 0 || len == 0 || ltb 8 len) ≡ false = ground arith in
    rw taken refl

-- A hook that can be planted is planted, taken into the inventory with the bytes that it overwrites,
-- and counted as tried and as armed.
pub plant_hook-arms :
    (p : Platform) (name : Bytes) (a len detour : ℕ) (w : World) (tr : ℕ)
    → Plantable p name a len detour w tr
    → ((plant_hook p name (some a) len detour w).1 ≡ some tr)
      × ((plant_hook p name (some a) len detour w).0.tried ≡ w.tried + 1)
      × ((plant_hook p name (some a) len detour w).0.armed ≡ w.armed + 1)
      × ((plant_hook p name (some a) len detour w).0.planted
          ≡ w.planted
            ++ record { name = name; target = a; orig = read w.machine.memory a len } ∷ [])
unfolding plant_hook plant_checked
plant_hook-arms p name a len detour w tr ok =
    let (done, hooked) =
      hook_auto-Ready p a detour len w.machine tr ok.ready ok.apart ok.reach ok.span in
    let after = (hook_auto p a detour len w.machine).0.memory in
    let e : Entry = record { name = name; target = a; orig = read w.machine.memory a len } in
    let there : (a == 0) ≡ false = ground (arith, ok.ready.there) in
    let entered =
      tracked w.machine.memory name a len w.planted ok.ready.there (omega (arith, ok.ready.long))
        ok.taken ok.room in
    let seen : hook_armed after name detour (w.planted ++ e ∷ []) ≡ true =
      rw (hook_armed-append after detour w.planted e ok.new)
        (lands-points_to after a detour hooked.no_move hooked.detours) in
    rw (there, ok.whole, entered, done, seen) (refl, refl, refl, refl)
