-- ===== src/Hooks/Jumps/Hooked.antt =====
-- The hooks of HookJumpN, HookJumpAbs and HookAuto: where calls go once they are planted.
use native.Mathlib.Decide.{dec_le}
use japlusproxy.Prelude.{
  ℕ, ◌+◌, ◌^◌, ◌≤◌, ◌<◌, ◌≡◌, ◌≢◌, inl, inr, refl, Bytes, true, ◌&&◌, ◌||◌, Option, none, some,
  arith, length, ltb, leb, ◌==◌, Bool-cases,
}
use japlusproxy.Memory.{Memory, read, sub32}
use japlusproxy.Memory.Laws.{Outside}
use japlusproxy.Hooks.Patch.{Platform}
use japlusproxy.Hooks.Jumps.{
  Machine, jump_rel, push_ret, move_jump, plant_at, mapped, hook_jump_n, hook_jump_abs, int32_of,
  hook_auto,
}
use japlusproxy.Hooks.Jumps.Lands.{
  lands, Stands, lands-jump_rel, lands-push_ret, lands-move_jump, sub32-lt,
}
use japlusproxy.Hooks.Jumps.Planted.{IsApart, plant_at-Planted}

-- What a hook does on success, at the trampoline `tr`.
pub record Hooked (before after : Memory) (target detour len size tr : ℕ) : Type 0 where
  pub detours : lands after target ≡ some detour
  pub no_move : after target ≢ 0xB8
  pub prefix : read after tr len ≡ read before target len
  pub resumes : lands after (tr + len) ≡ some (target + len)
  pub elsewhere : (x : ℕ) → Outside target len x → Outside tr (len + size) x → after x ≡ before x

-- The platform gives a mapping apart from the target.
abbrev pub IsFresh : Platform → ℕ → ℕ → ℕ → ℕ → Type 0
IsFresh p maps target len size =
    (tr : ℕ) → p.map maps (len + size) ≡ some tr → IsApart target len tr (len + size)

module _ (p : Platform) (target detour len : ℕ) (m : Machine) where
  mapped-Hooked :
      (size : ℕ) (back : ℕ → Bytes) (over : Bytes) (o : Option ℕ) (tr : ℕ)
      → length over ≤ len
      → ((at : ℕ) → length (back at) ≡ size)
      → ((mem : Memory) → Stands mem target over → lands mem target ≡ some detour)
      → ((mem : Memory) → Stands mem target over → mem target ≢ 0xB8)
      → ((at : ℕ) (mem : Memory)
          → Stands mem (at + len) (back at)
          → lands mem (at + len) ≡ some (target + len))
      → ((at : ℕ) → o ≡ some at → IsApart target len at (len + size))
      → (mapped (λ at. plant_at p target len (back at) over at) o m).1 ≡ some tr
      → Hooked m.memory
          (mapped (λ at. plant_at p target len (back at) over at) o m).0.memory
          target
          detour
          len
          size
          tr
  mapped-Hooked size back over none tr fits sized there first again apart h = cc
  mapped-Hooked size back over (some at) tr fits sized there first again apart h =
      let (same, done) =
        plant_at-Planted p target len m over (back at) at tr fits (rw (sized at) (apart at refl))
          h in
      rw same (record {
        detours = there _ done.code;
        no_move = first _ done.code;
        prefix = done.prefix;
        resumes = again at _ done.resumes;
        elsewhere = λ x here away. done.elsewhere x here (rw (sized at) away);
      })

module _ (p : Platform) (target detour len : ℕ) (m : Machine) (reach : detour < 2 ^ 32)
    (span : target + len < 2 ^ 32) where
  -- On success of the relative hook, with a mapping apart from the target, a call of the target lands
  -- at the detour; the trampoline has the target's first bytes, and behind them control goes on
  -- behind those of the target; no byte changes elsewhere.
  pub hook_jump_n-Hooked :
      (tr : ℕ)
      → IsFresh p m.maps target len 5
      → (hook_jump_n p target detour len m).1 ≡ some tr
      → Hooked m.memory (hook_jump_n p target detour len m).0.memory target detour len 5 tr
  unfolding hook_jump_n
  hook_jump_n-Hooked tr fresh h =
      elim (Bool-cases (target == 0 || detour == 0 || ltb len 5 || ltb 64 len)) [
        | inl refused ↦ cc (rw refused at h)
        | inr free ↦ rw free (
            mapped-Hooked p target detour len m 5 (λ at. jump_rel (at + len) (target + len))
              (jump_rel target detour) (p.map m.maps (len + 5)) tr (ground arith)
              (λ at. omega arith) (λ mem s. lands-jump_rel mem target detour reach s)
              (λ mem s e. omega (arith, s target 0 (omega arith) (omega arith), e))
              (λ at mem s. lands-jump_rel mem (at + len) (target + len) span s) fresh
              (rw free at h))
      ]

  -- The same of the absolute hook.
  pub hook_jump_abs-Hooked :
      (tr : ℕ)
      → IsFresh p m.maps target len 7
      → (hook_jump_abs p target detour len m).1 ≡ some tr
      → Hooked m.memory (hook_jump_abs p target detour len m).0.memory target detour len 7 tr
  unfolding hook_jump_abs
  hook_jump_abs-Hooked tr fresh h =
      elim (Bool-cases (target == 0 || detour == 0 || ltb len 6 || ltb 64 len)) [
        | inl refused ↦ cc (rw refused at h)
        | inr free ↦ rw free (
            mapped-Hooked p target detour len m 7 (λ at. move_jump (target + len)) (push_ret detour)
              (p.map m.maps (len + 7)) tr (ground arith) (λ at. omega arith)
              (λ mem s. lands-push_ret mem target detour reach s)
              (λ mem s e. omega (arith, s target 0 (omega arith) (omega arith), e))
              (λ at mem s. lands-move_jump mem (at + len) (target + len) span s) fresh
              (rw free at h))
      ]

-- A pattern of 32 bits is its own `int32_t`: the test of the range never fails on i386, and with a
-- prefix of five bytes or more HookAuto is HookJumpN.
pub hook_auto-hook_jump_n :
    (p : Platform) (target detour len : ℕ) (m : Machine)
    → 5 ≤ len
    → hook_auto p target detour len m ≡ hook_jump_n p target detour len m
unfolding hook_auto
hook_auto-hook_jump_n p target detour len m h =
    elim (Bool-cases (target == 0 || detour == 0 || len == 0 || ltb 64 len)) [
      | inl refused ↦
          let also : (target == 0 || detour == 0 || ltb len 5 || ltb 64 len) ≡ true =
            ground arith in
          rw refused (unfold hook_jump_n in rw also refl)
      | inr free ↦
          let rel = sub32 detour (target + 5) in
          let reaches : (leb 5 len && rel == int32_of rel) ≡ true =
            ground (arith, sub32-lt detour (target + 5)) in
          rw (free, reaches) refl
    ]

pub hook_auto_short :
    (p : Platform) (target detour len : ℕ) (m : Machine)
    → len < 5
    → (hook_auto p target detour len m).1 ≡ none
unfolding hook_auto
hook_auto_short p target detour len m h = ground arith

-- Where HookAuto succeeds, with a mapping apart from the target, a call of the target lands at the
-- detour; the trampoline has the target's first bytes, and behind them control goes on behind
-- those of the target; no byte changes elsewhere.
pub hook_auto-Hooked :
    (p : Platform) (target detour len : ℕ) (m : Machine) (tr : ℕ)
    → detour < 2 ^ 32
    → target + len < 2 ^ 32
    → IsFresh p m.maps target len 5
    → (hook_auto p target detour len m).1 ≡ some tr
    → Hooked m.memory (hook_auto p target detour len m).0.memory target detour len 5 tr
hook_auto-Hooked p target detour len m tr reach span fresh h = elim (dec_le 5 len) [
  | yes long ↦
      let same = hook_auto-hook_jump_n p target detour len m long in
      rw same (hook_jump_n-Hooked p target detour len m reach span tr fresh (rw same at h))
  | no short ↦ cc (rw (hook_auto_short p target detour len m (omega arith)) at h)
]
