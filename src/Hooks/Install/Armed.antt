-- ===== src/Hooks/Install/Armed.antt =====
-- How many of the hooks can be counted as armed.
use japlusproxy.Prelude.{ℕ, ◌+◌, ◌≤◌, ◌≡◌, inl, inr, refl, Bytes, Option, none, some, false, arith}
use japlusproxy.Siege.{siege_target, find_target, find_in, resolve_target}
use japlusproxy.Info.Sanitize.{same_bytes}
use japlusproxy.Hooks.Patch.{Platform}
use japlusproxy.Hooks.Plant.{World, plant_hook}
use japlusproxy.Hooks.Plant.Counts.{
  NoName, Adds, plant_hook-Adds, plant_hook-Adds_none, plant_hook-NoName,
}
use japlusproxy.Hooks.Install.{
  Linker, Detours, siege_name, connless_name, donedl_name, rcon_name, plant_connless, plant_siege,
  plant_four, plant_from, install_patches, resolve_engine_connless, resolve_engine_donedl,
  resolve_engine_rcon,
}

-- What installing the hooks adds: up to four tried, up to two armed, and no entry for two of them.
pub record Installs (before after : World) : Type 0 where
  pub tried : after.tried ≤ before.tried + 4
  pub armed : after.armed ≤ before.armed + 2
  pub no_siege : NoName siege_name after.planted
  pub no_rcon : NoName rcon_name after.planted

siege_found : find_target siege_name ≡ some siege_target
unfolding find_in same_bytes
siege_found = refl

names_differ :
    (same_bytes connless_name siege_name ≡ false)
    × (same_bytes donedl_name siege_name ≡ false)
    × (same_bytes siege_name rcon_name ≡ false)
    × (same_bytes connless_name rcon_name ≡ false)
    × (same_bytes donedl_name rcon_name ≡ false)
unfolding same_bytes
names_differ = (refl, refl, refl, refl, refl)

module _ (p : Platform) (d : Detours) where
  plant_connless-Adds :
      (off : Option Bytes) (w : World) → Adds w (plant_connless p d.connless off w).0 1
  plant_connless-Adds (some off) w = ground arith
  plant_connless-Adds none w =
      plant_hook-Adds p connless_name 6 d.connless w (resolve_engine_connless w.machine.memory)

  plant_connless-NoName :
      (off : Option Bytes) (w : World) (q : Bytes)
      → NoName q w.planted
      → same_bytes connless_name q ≡ false
      → NoName q (plant_connless p d.connless off w).0.planted
  plant_connless-NoName (some off) w q n h = n
  plant_connless-NoName none w q n h =
      plant_hook-NoName p connless_name 6 d.connless w (resolve_engine_connless w.machine.memory) q
        n (inl h)

  plant_four-Installs :
      (base : ℕ) (off : Option Bytes) (w : World)
      → NoName siege_name w.planted
      → NoName rcon_name w.planted
      → Installs w (plant_four p d base off w).0
  unfolding plant_four
  plant_four-Installs base off w s r =
      let w1 = (plant_siege p base d.siege_find (some siege_target) w).0 in
      let w2 = (plant_connless p d.connless off w1).0 in
      let w3 =
        (plant_hook p donedl_name (resolve_engine_donedl w2.machine.memory) 6 d.done_download
          w2).0 in
      let at = resolve_target w.machine.memory base siege_target in
      let rcon_at = resolve_engine_rcon w3.machine.memory in
      let donedl_at = resolve_engine_donedl w2.machine.memory in
      let n = names_differ in
      let s1 =
        plant_hook-NoName p siege_name 9 d.siege_find w at siege_name s (inr (omega arith)) in
      let r1 = plant_hook-NoName p siege_name 9 d.siege_find w at rcon_name r (inl n.2) in
      let s2 = plant_connless-NoName off w1 siege_name s1 n.0 in
      let r2 = plant_connless-NoName off w1 rcon_name r1 n.3 in
      let s3 =
        plant_hook-NoName p donedl_name 6 d.done_download w2 donedl_at siege_name s2 (inl n.1) in
      let r3 =
        plant_hook-NoName p donedl_name 6 d.done_download w2 donedl_at rcon_name r2 (inl n.4) in
      let a1 = plant_hook-Adds_none p siege_name 9 d.siege_find w at s (omega arith) in
      let a2 = plant_connless-Adds off w1 in
      let a3 = plant_hook-Adds p donedl_name 6 d.done_download w2 donedl_at in
      let a4 = plant_hook-Adds_none p rcon_name 9 d.rcon w3 rcon_at r3 (omega arith) in
      rw siege_found (record {
        tried = omega (arith, a1.tried_high, a2.tried_high, a3.tried_high, a4.tried_high);
        armed = omega (arith, a1.armed_high, a2.armed_high, a3.armed_high, a4.armed_high);
        no_siege =
            plant_hook-NoName p rcon_name 9 d.rcon w3 rcon_at siege_name s3 (inr (omega arith));
        no_rcon =
            plant_hook-NoName p rcon_name 9 d.rcon w3 rcon_at rcon_name r3 (inr (omega arith));
      })

-- Installing the hooks tries up to four and counts up to two as armed; the hooks on the siege class
-- lookup and on rcon, with their prefixes of nine bytes, are not in the inventory afterwards, if
-- they were not in it before.
pub install_patches-Installs :
    (p : Platform) (l : Linker) (d : Detours) (handle : ℕ) (w : World)
    → NoName siege_name w.planted
    → NoName rcon_name w.planted
    → Installs w (install_patches p l d handle w).0
unfolding install_patches
install_patches-Installs p l d handle w s r = from_base _ _
  where
    from_base :
        (base : Option ℕ) (no_hooks : Option Bytes)
        → Installs w (plant_from p l d base no_hooks w).0
    from_base none no_hooks = record {
      tried = omega arith;
      armed = omega arith;
      no_siege = s;
      no_rcon = r;
    }
    from_base (some base) (some off) = record {
      tried = omega arith;
      armed = omega arith;
      no_siege = s;
      no_rcon = r;
    }
    from_base (some base) none = plant_four-Installs p d base _ w s r
