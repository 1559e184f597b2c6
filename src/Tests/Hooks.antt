-- ===== src/Tests/Hooks.antt =====
-- Hook targets in a small memory, and the siege class lookup.
use japlusproxy.Prelude.{ℕ, ◌+◌, ◌≡◌, ◌↔◌, refl, Bytes, Option, some, [], ◌∷◌, get_or, ◌-◌}
use japlusproxy.Memory.{Memory}
use japlusproxy.Targets.{
  engine_base, IsTarget, matches, finds, resolve_engine_abs, resolve_engine_abs_iff,
}

-- The prologue of SV_DoneDownload_f, and the address of its string behind it.
abbrev code : Bytes
code = 0x55 ∷ 0x8B ∷ 0xEC ∷ 0x83 ∷ 0xEC ∷ 0x10 ∷ 0xB8 ∷ 0xB5 ∷ 0x19 ∷ 0x08 ∷ []

abbrev memory : Memory
memory a = get_or code (a - (engine_base + 0x6AA4)) 0

abbrev prologue : Bytes
prologue = 0x55 ∷ 0x8B ∷ 0xEC ∷ 0x83 ∷ 0xEC ∷ 0x10 ∷ []

found_there :
    resolve_engine_abs memory 0x6AA4 (some prologue) 0x0819B5B8 0x100 ≡ some (engine_base + 0x6AA4)
unfolding resolve_engine_abs matches finds
found_there = refl

resolve_engine_abs_iff_example :
    (resolve_engine_abs memory 0x6AA4 (some prologue) 0x0819B5B8 0x100 ≡ some 0x0804EAA4) ↔ (
      (0x0804EAA4 ≡ engine_base + 0x6AA4)
      × IsTarget memory (engine_base + 0x6AA4) prologue 0x0819B5B8 0x100)
resolve_engine_abs_iff_example =
    resolve_engine_abs_iff memory 0x6AA4 prologue 0x0819B5B8 0x100 0x0804EAA4

-- A module of zeros: another build.
abbrev zeros : Memory
zeros a = 0

abbrev classes : Bytes → Option ℕ
classes name = some 9
