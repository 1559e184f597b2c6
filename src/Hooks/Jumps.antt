-- ===== src/Hooks/Jumps.antt =====
-- HookJumpN, HookJumpAbs and HookAuto of proxy/patch.c. All callers pass an `out_tramp`; what is
-- written through it is the answer, none where the functions return -1.
pub mod Lands
pub mod Planted
pub mod Hooked
pub mod Works
pub mod Elsewhere
use japlusproxy.Prelude.{
  ℕ, ◌+◌, ◌-◌, ◌%◌, ◌^◌, Bytes, Bool, true, false, not, ◌&&◌, ◌||◌, Option, none, some, [], ◌∷◌,
  ◌++◌, length, replicate, ltb, leb, ◌==◌, if◌then◌else◌,
}
use japlusproxy.Memory.{Memory, read, write, le32, sub32}
use japlusproxy.Hooks.Patch.{Platform, patch_bytes}

-- Memory, and how many mappings were asked for.
pub record Machine : Type 0 where
  pub memory : Memory
  pub maps : ℕ

-- jmp rel32 from `a` to `b`: the operand counts from the end of the instruction.
abbrev pub jump_rel : ℕ → ℕ → Bytes
jump_rel a b = 0xE9 ∷ le32 (sub32 b (a + 5)) ++ []

-- push imm32; ret
abbrev pub push_ret : ℕ → Bytes
push_ret b = 0x68 ∷ le32 b ++ 0xC3 ∷ []

-- mov eax, imm32; jmp eax
abbrev pub move_jump : ℕ → Bytes
move_jump b = 0xB8 ∷ le32 b ++ 0xFF ∷ 0xE0 ∷ []

-- Bytes up to `n`, filled with NOPs.
abbrev pub padded : Bytes → ℕ → Bytes
padded bytes n = bytes ++ replicate (n - length bytes) 0x90

-- The part that both functions share, once memory is mapped at `tr`: the trampoline is filled with
-- the prefix of the target and the jump `back`, and the target is overwritten with `over`. If that
-- fails the mapping is given back.
unfoldable pub plant_at : Platform → ℕ → ℕ → Bytes → Bytes → ℕ → Machine → Machine × Option ℕ
plant_at p target len back over tr m =
    let copied = write m.memory tr (read m.memory target len) in
    let filled = write copied (tr + len) back in
    let (memory, done) = patch_bytes p filled target (padded over len) in
    (record { memory = memory; maps = m.maps + 1 }, if done then some tr else none)

-- No answer of mmap leaves memory as it was.
abbrev pub mapped : (ℕ → Machine → Machine × Option ℕ) → Option ℕ → Machine → Machine × Option ℕ
mapped plant none m = (record m { maps = m.maps + 1 }, none)
mapped plant (some tr) m = plant tr m

unfoldable pub hook_jump_n : Platform → ℕ → ℕ → ℕ → Machine → Machine × Option ℕ
hook_jump_n p target detour len m =
    if target == 0 || detour == 0 || ltb len 5 || ltb 64 len
    then (m, none)
    else mapped
        (λ tr.
          plant_at p target len (jump_rel (tr + len) (target + len)) (jump_rel target detour) tr)
        (p.map m.maps (len + 5)) m

unfoldable pub hook_jump_abs : Platform → ℕ → ℕ → ℕ → Machine → Machine × Option ℕ
hook_jump_abs p target detour len m =
    if target == 0 || detour == 0 || ltb len 6 || ltb 64 len
    then (m, none)
    else mapped (plant_at p target len (move_jump (target + len)) (push_ret detour))
        (p.map m.maps (len + 7)) m

-- (int32_t)rel, as a bit pattern. `intptr_t` has 32 bits on i386, so the conversion keeps it.
abbrev pub int32_of : ℕ → ℕ
int32_of rel = rel % 2 ^ 32

unfoldable pub hook_auto : Platform → ℕ → ℕ → ℕ → Machine → Machine × Option ℕ
hook_auto p target detour len m =
    if target == 0 || detour == 0 || len == 0 || ltb 64 len
    then (m, none)
    else let rel = sub32 detour (target + 5) in
      if leb 5 len && rel == int32_of rel
      then hook_jump_n p target detour len m
      else if leb 6 len
      then hook_jump_abs p target detour len m
      else (m, none)
