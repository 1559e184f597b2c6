-- ===== src/Hooks/Inventory.antt =====
-- The inventory of planted hooks in proxy/patch.c: planted_t, TrackHook, RemoveHooks, HookArmed.
use japlusproxy.Prelude.{
  ℕ, ◌+◌, ◌≡◌, Bytes, Bool, true, false, not, ◌&&◌, ◌||◌, List, [], ◌∷◌, ◌++◌, some, arith, length,
  ltb, leb, ◌==◌, if◌then◌else◌,
}
use japlusproxy.Info.Sanitize.{same_bytes}
use japlusproxy.Memory.{Memory, read, word_at, add32}
use japlusproxy.Hooks.Patch.{Platform, patch_bytes}
use japlusproxy.Hooks.Jumps.Lands.{lands}

-- `orig` is as much of the array as `len` says.
pub record Entry : Type 0 where
  pub name : Bytes
  pub target : ℕ
  pub orig : Bytes

-- Longer prefixes than eight bytes, and hooks after the eighth, are not taken in.
unfoldable pub track_hook : Memory → Bytes → ℕ → ℕ → List Entry → List Entry
track_hook mem name target len es =
    if leb 8 (length es) || target == 0 || len == 0 || ltb 8 len
    then es
    else es ++ record { name = name; target = target; orig = read mem target len } ∷ []

unfoldable pub remove_hooks : Platform → List Entry → Memory → Memory
remove_hooks p [] mem = mem
remove_hooks p (e ∷ es) mem = remove_hooks p es (patch_bytes p mem e.target e.orig).0

-- The two tests on the code of a hook.
unfoldable pub points_to : Memory → ℕ → ℕ → Bool
points_to mem t detour =
    if mem t == 0xE9
    then add32 (t + 5) (word_at mem (t + 1)) == detour
    else if mem t == 0x68 && mem (t + 5) == 0xC3
    then word_at mem (t + 1) == detour
    else false

unfoldable pub hook_armed : Memory → Bytes → ℕ → List Entry → Bool
unfolding points_to
hook_armed mem name detour [] = false
hook_armed mem name detour (e ∷ es) =
    let rest = hook_armed mem name detour es in
    if not (same_bytes e.name name) then rest else points_to mem e.target detour

-- A hook that passes the tests lands at the detour.
pub points_to-lands :
    (mem : Memory) (t detour : ℕ) → points_to mem t detour ≡ true → lands mem t ≡ some detour
unfolding points_to lands
points_to-lands mem t detour h = ground arith
