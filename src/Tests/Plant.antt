-- ===== src/Tests/Plant.antt =====
-- Hooks in a small memory, on a platform with two mappings.
use japlusproxy.Memory.{read}
use japlusproxy.Prelude.{
  ◌++◌, ℕ, ◌+◌, ◌-◌, ◌*◌, ◌≤◌, ◌<◌, ◌≡◌, ◌≢◌, ◌↔◌, refl, Bytes, codes, true, false, some, List, [],
  ◌∷◌, arith, get_or, inl, inr, ◌==◌, if◌then◌else◌,
}
use japlusproxy.Prelude.Int.{pos}
use japlusproxy.Memory.{Memory, write}
use japlusproxy.Hooks.Patch.{Platform, patch_bytes, make_writable}
use japlusproxy.Hooks.Jumps.{Machine, plant_at, hook_jump_n, hook_auto}
use japlusproxy.Hooks.Jumps.Lands.{lands}
use japlusproxy.Hooks.Jumps.Hooked.{Hooked}
use japlusproxy.Hooks.Jumps.Elsewhere.{Unmapped}
use japlusproxy.Hooks.Inventory.{track_hook, hook_armed, points_to, remove_hooks}
use japlusproxy.Hooks.Length.{len_loop, hook_len_ok, Decodes, hook_len_ok_iff}
use japlusproxy.Hooks.Plant.{World, plant_checked, plant_hook}
use japlusproxy.Hooks.Plant.Arms.{Plantable, plant_hook-arms}
use japlusproxy.Hooks.Jumps.Works.{Ready, hook_auto_iff, hook_auto-Ready}
use japlusproxy.Hooks.Plant.Sound.{plant_hook-lands}
use japlusproxy.Hooks.Plant.Apart.{Hook, AllFit}
use japlusproxy.Hooks.Plant.RoundTrip.{plant_all, remove_hooks-plant_all}
use japlusproxy.Info.Sanitize.{same_bytes}

-- push ebp; mov ebp, esp; sub esp, 16
abbrev code : Bytes
code = 0x55 ∷ 0x8B ∷ 0xEC ∷ 0x83 ∷ 0xEC ∷ 0x10 ∷ []

abbrev memory : Memory
memory a = get_or code (a - 0x1000) 0

-- A decoder for the three instructions, by their first byte.
abbrev size_of : ℕ → ℕ
size_of c = if c == 0x55 then 1 else if c == 0x8B then 2 else if c == 0x83 then 3 else 0

abbrev pub platform : Platform
platform = record {
  page_size = pos 4096;
  protect = λ start size. true;
  map = λ maps size. some (0x50000 + 4096 * maps);
  decode = λ mem a. record { len = size_of (mem a); error = false };
}

abbrev machine : Machine
machine = record { memory = memory; maps = 0 }

abbrev pub world : World
world = record { machine = machine; planted = []; tried = 0; armed = 0 }

ready : Ready platform 0x1000 0x9000 6 machine 0x50000
unfolding make_writable
ready = record {
  there = omega arith;
  somewhere = omega arith;
  long = omega arith;
  short = omega arith;
  map = refl;
  writable = refl;
}

hook_auto_iff_example :
    ((hook_auto platform 0x1000 0x9000 6 machine).1 ≡ some 0x50000)
    ↔ Ready platform 0x1000 0x9000 6 machine 0x50000
hook_auto_iff_example = hook_auto_iff platform 0x1000 0x9000 6 machine 0x50000

hook_auto-Ready_example :
    ((hook_auto platform 0x1000 0x9000 6 machine).1 ≡ some 0x50000)
    × Hooked memory (hook_auto platform 0x1000 0x9000 6 machine).0.memory 0x1000 0x9000 6 5 0x50000
hook_auto-Ready_example =
    hook_auto-Ready platform 0x1000 0x9000 6 machine 0x50000 ready (inr (omega arith)) (omega arith)
      (omega arith)

fits : hook_len_ok platform memory 0x1000 6 ≡ true
unfolding hook_len_ok len_loop
fits = refl

plantable : Plantable platform (codes "hook") 0x1000 6 0x9000 world 0x50000
plantable = record {
  ready = ready;
  whole = fits;
  apart = inr (omega arith);
  reach = omega arith;
  span = omega arith;
  taken = omega arith;
  room = omega arith;
  new = tt;
}

plant_hook-arms_example :
    ((plant_hook platform (codes "hook") (some 0x1000) 6 0x9000 world).1 ≡ some 0x50000)
    × ((plant_hook platform (codes "hook") (some 0x1000) 6 0x9000 world).0.tried ≡ 0 + 1)
    × ((plant_hook platform (codes "hook") (some 0x1000) 6 0x9000 world).0.armed ≡ 0 + 1)
    × ((plant_hook platform (codes "hook") (some 0x1000) 6 0x9000 world).0.planted
        ≡ [] ++ record { name = codes "hook"; target = 0x1000; orig = read memory 0x1000 6 } ∷ [])
plant_hook-arms_example =
    plant_hook-arms platform (codes "hook") 0x1000 6 0x9000 world 0x50000 plantable

hook_len_ok_iff_example :
    (hook_len_ok platform memory 0x1000 6 ≡ true)
    ↔ ((◌≢◌ {A = ℕ} 0x1000 0) × (0 < 6) × (6 ≤ 64) × Decodes platform memory 0x1000 0 6)
hook_len_ok_iff_example = hook_len_ok_iff platform memory 0x1000 6

-- A prefix that would cut the last instruction is refused.
cuts : hook_len_ok platform memory 0x1000 5 ≡ false
unfolding hook_len_ok len_loop
cuts = refl

armed_once : (plant_hook platform (codes "hook") (some 0x1000) 6 0x9000 world).0.armed ≡ 1
unfolding plant_hook plant_checked hook_len_ok len_loop hook_auto hook_jump_n plant_at patch_bytes
    make_writable track_hook hook_armed same_bytes points_to write
armed_once = refl

plant_hook-lands_example :
    (a : ℕ) × (some 0x1000 ≡ some a)
    × (lands (plant_hook platform (codes "hook") (some 0x1000) 6 0x9000 world).0.machine.memory a
        ≡ some 0x9000)
plant_hook-lands_example =
    plant_hook-lands platform (codes "hook") (some 0x1000) 6 0x9000 world tt
      (rw armed_once (omega arith))

abbrev hooks : List Hook
hooks =
    record { name = codes "first"; addr = 0x1000; len = 6; detour = 0x9000 }
    ∷ record { name = codes "second"; addr = 0x2000; len = 5; detour = 0x9100 }
    ∷ []

below : (x : ℕ) → x < 0x50000 → Unmapped platform x
below x h maps size tr e = inl (ground arith)

hooks-AllFit : AllFit platform hooks
hooks-AllFit = (
  (omega arith, omega arith, λ x lo hi. below x (omega arith)),
  (inl (omega arith), tt),
  ((omega arith, omega arith, λ x lo hi. below x (omega arith)), tt, tt),
)

remove_hooks-plant_all_example :
    remove_hooks platform
      (plant_all platform hooks world).planted
      (plant_all platform hooks world).machine.memory
      0x1003
    ≡ 0x83
remove_hooks-plant_all_example =
    remove_hooks-plant_all platform hooks world 0x1003 (λ start size. refl) hooks-AllFit refl
      (omega arith) (below 0x1003 (omega arith))
