-- ===== src/Hooks/Plant/Sound.antt =====
-- A hook that is counted as armed is in memory.
use japlusproxy.Prelude.{
  ℕ, ◌<◌, ◌≡◌, inl, inr, refl, Bytes, true, ◌||◌, Option, none, some, List, [], ◌∷◌, ◌++◌, arith,
  length, ltb, leb, ◌==◌, Bool-cases,
}
use japlusproxy.Info.Sanitize.{same_bytes}
use japlusproxy.Memory.{Memory, read}
use japlusproxy.Hooks.Patch.{Platform}
use japlusproxy.Hooks.Jumps.{hook_auto}
use japlusproxy.Hooks.Jumps.Lands.{lands}
use japlusproxy.Hooks.Inventory.{Entry, track_hook, points_to, points_to-lands, hook_armed}
use japlusproxy.Hooks.Length.{hook_len_ok}
use japlusproxy.Hooks.Plant.{World, plant_hook}
use japlusproxy.Hooks.Plant.Counts.{NoName, hook_armed-NoName}

same_bytes_refl : (a : Bytes) → same_bytes a a ≡ true
unfolding same_bytes
same_bytes_refl [] = refl
same_bytes_refl (x ∷ a) = ground (arith, same_bytes_refl a)

-- The test of a hook that stands last in the inventory reads its own target.
pub hook_armed-append :
    (mem : Memory) (detour : ℕ) (es : List Entry) (e : Entry)
    → NoName e.name es
    → hook_armed mem e.name detour (es ++ e ∷ []) ≡ points_to mem e.target detour
unfolding hook_armed
hook_armed-append mem detour [] e n = rw same_bytes_refl refl
hook_armed-append mem detour (x ∷ es) e n = rw n.0 (hook_armed-append mem detour es e n.1)

tracked-points_to :
    (before after : Memory) (name : Bytes) (target len detour : ℕ) (es : List Entry)
    → NoName name es
    → hook_armed after name detour (track_hook before name target len es) ≡ true
    → points_to after target detour ≡ true
unfolding track_hook
tracked-points_to before after name target len detour es n h =
    elim (Bool-cases (leb 8 (length es) || target == 0 || len == 0 || ltb 8 len)) [
      | inl left_out ↦ cc (rw left_out at h, hook_armed-NoName after name detour es n)
      | inr added ↦
          let e : Entry = record { name = name; target = target; orig = read before target len } in
          rw (hook_armed-append after detour es e n) at (rw added at h)
    ]

-- If a hook whose name is new to the inventory raises the count of armed hooks, it has an address,
-- and a call of the function there lands at the detour.
pub plant_hook-lands :
    (p : Platform) (name : Bytes) (addr : Option ℕ) (len detour : ℕ) (w : World)
    → NoName name w.planted
    → w.armed < (plant_hook p name addr len detour w).0.armed
    → (a : ℕ) × (addr ≡ some a)
      × (lands (plant_hook p name addr len detour w).0.machine.memory a ≡ some detour)
unfolding plant_hook
plant_hook-lands p name none len detour w n more = absurd (omega arith)
plant_hook-lands p name (some a) len detour w n more = elim (Bool-cases (a == 0)) [
  | inl null ↦ absurd (ground arith)
  | inr there ↦ elim (Bool-cases (hook_len_ok p w.machine.memory a len)) [
    | inr short ↦ absurd (ground arith)
    | inl fits ↦
        let after = (hook_auto p a detour len w.machine).0.memory in
        let tracked = track_hook w.machine.memory name a len w.planted in
        let found : hook_armed after name detour tracked ≡ true = ground arith in
        (
          a,
          refl,
          rw (there, fits)
              (points_to-lands after a detour
                (tracked-points_to w.machine.memory after name a len detour w.planted n found)),
        )
  ]
]
