-- ===== src/Siege.antt =====
-- The target table of proxy/patch.c with FindTarget and ResolveTarget, and the detour in front of
-- the game's lookup of siege classes.
use japlusproxy.Prelude.{
  ℕ, ◌+◌, ◌<◌, ◌≡◌, ◌↔◌, refl, Bytes, codes, true, not, ◌||◌, Option, none, some, List, [], ◌∷◌,
  arith, length, take, leb, ◌==◌, if◌then◌else◌,
}
use japlusproxy.Info.Sanitize.{same_bytes}
use japlusproxy.Memory.{Memory}
use japlusproxy.Targets.{matches, Holds, matches-Holds}

-- japlus_target_t; `expect` is the whole array of six bytes.
pub record Target : Type 0 where
  pub name : Bytes
  pub vaddr : ℕ
  pub expect : Bytes
  pub expect_len : ℕ
  pub prefix_len : ℕ

-- The prologue that four of the targets share.
abbrev plain_prologue : Bytes
plain_prologue = 0x57 ∷ 0x56 ∷ 0x55 ∷ 0x53 ∷ 0x81 ∷ 0xEC ∷ []

-- A target that is only verified.
abbrev reserved : Bytes → ℕ → Bytes → Target
reserved name vaddr expect = record {
  name = name;
  vaddr = vaddr;
  expect = expect;
  expect_len = 6;
  prefix_len = 0;
}

abbrev pub siege_target : Target
siege_target = record {
  name = codes "BG_SiegeFindClassByName";
  vaddr = 0x10DB34;
  expect = 0x57 ∷ 0x56 ∷ 0x53 ∷ 0x8B ∷ 0x15 ∷ 0x00 ∷ [];
  expect_len = 5;
  prefix_len = 9;
}

abbrev pub g_targets : List Target
g_targets =
    siege_target
    ∷ reserved (codes "ClientSpawn") 0x122DD4 plain_prologue
    ∷ reserved (codes "ClientCommand") 0x1B2E06 plain_prologue
    ∷ reserved (codes "ClientUserinfoChanged") 0x11F8FE plain_prologue
    ∷ reserved (codes "SetTeam") 0x19F338 plain_prologue
    ∷ reserved (codes "Cmd_SiegeClass_f") 0x1A041A (0x57 ∷ 0x56 ∷ 0x55 ∷ 0x53 ∷ 0x83 ∷ 0xEC ∷ [])
    ∷ reserved (codes "G_ParseSpawnVars") 0x14E4A2 (0x55 ∷ 0x81 ∷ 0xEC ∷ 0x00 ∷ 0x08 ∷ 0x00 ∷ [])
    ∷ reserved (codes "Cmd_amvstr_f") 0x1AA4BC (0x81 ∷ 0xEC ∷ 0x00 ∷ 0x08 ∷ 0x00 ∷ 0x00 ∷ [])
    ∷ reserved (codes "Cmd_amlogin_f") 0x1A470A (0x55 ∷ 0x81 ∷ 0xEC ∷ 0x00 ∷ 0x08 ∷ 0x00 ∷ [])
    ∷ reserved (codes "Cmd_ammap_f") 0x1A5A56 (0x57 ∷ 0x56 ∷ 0x53 ∷ 0x81 ∷ 0xEC ∷ 0x00 ∷ [])
    ∷ []

-- FindTarget over the entries that are left.
unfoldable pub find_in : List Target → Bytes → Option Target
find_in [] name = none
find_in (t ∷ ts) name =
    let rest = find_in ts name in if same_bytes t.name name then some t else rest

abbrev pub find_target : Bytes → Option Target
find_target = find_in g_targets

abbrev pub compared : Target → ℕ
compared t = if leb t.expect_len 6 then t.expect_len else 6

pub resolve_target : Memory → ℕ → Target → Option ℕ
resolve_target mem base t =
    if compared t == 0 || not (matches mem (base + t.vaddr) (take (compared t) t.expect))
    then none
    else some (base + t.vaddr)

finds_siege : find_target (codes "BG_SiegeFindClassByName") ≡ some siege_target
unfolding find_in same_bytes
finds_siege = refl

-- A target is found in the game's module exactly at its base plus the link-time address, and
-- exactly if some bytes are compared and those stand there.
pub resolve_target_iff :
    (mem : Memory) (base : ℕ) (t : Target) (a : ℕ)
    → (resolve_target mem base t ≡ some a) ↔ (
        (a ≡ base + t.vaddr)
        × (0 < t.expect_len)
        × Holds mem (base + t.vaddr) (take (compared t) t.expect))
unfolding resolve_target
resolve_target_iff mem base t a =
    let held = matches-Holds mem (base + t.vaddr) (take (compared t) t.expect) in
    (
      λ h.
          let bytes : matches mem (base + t.vaddr) (take (compared t) t.expect) ≡ true =
            ground arith in
          (ground arith, ground arith, held.0 bytes),
      λ h. let bytes = held.1 h.2 in ground arith,
    )

-- Detour_SiegeFind: `orig` is the game's function, and a null pointer is none on both sides.
pub detour_siege_find : (Bytes → Option ℕ) → Option Bytes → Option ℕ
detour_siege_find orig none = none
detour_siege_find orig (some classname) = if leb 64 (length classname) then none else orig classname

-- A class is found exactly for a name of fewer than 64 bytes under which the game finds it.
pub detour_siege_find_iff :
    (orig : Bytes → Option ℕ) (name : Option Bytes) (class : ℕ)
    → (detour_siege_find orig name ≡ some class)
      ↔ ((s : Bytes) × (name ≡ some s) × (length s < 64) × (orig s ≡ some class))
unfolding detour_siege_find
detour_siege_find_iff orig none class = (λ h. cc, λ h. cc (h.1))
detour_siege_find_iff orig (some s) class = (
  λ h. (s, refl, ground arith, ground arith),
  λ (s', same, short, found). let eq : s ≡ s' = cc same in rw eq (ground arith),
)
