-- ===== src/Hooks/Jumps/Elsewhere.antt =====
-- What the hooks leave alone, also where they fail.
use japlusproxy.Prelude.{
  ℕ, ◌+◌, ◌≤◌, ◌≡◌, inl, inr, refl, ◌∙◌, Bytes, ◌||◌, Option, none, some, arith, length, ltb, ◌==◌,
  Bool-cases,
}
use japlusproxy.Memory.{Memory, read, write}
use japlusproxy.Memory.Laws.{Outside, write_elsewhere, length-read}
use japlusproxy.Hooks.Patch.{Platform, patch_bytes}
use japlusproxy.Hooks.Jumps.{
  Machine, jump_rel, push_ret, move_jump, padded, plant_at, mapped, hook_jump_n, hook_jump_abs,
  hook_auto,
}
use japlusproxy.Hooks.Jumps.Planted.{length-padded}

-- The address is in none of the blocks that mmap gives.
abbrev pub Unmapped : Platform → ℕ → Type 0
Unmapped p x = (k size tr : ℕ) → p.map k size ≡ some tr → Outside tr size x

pub patch_elsewhere :
    (p : Platform) (mem : Memory) (t : ℕ) (bytes : Bytes) (x : ℕ)
    → Outside t (length bytes) x
    → (patch_bytes p mem t bytes).0 x ≡ mem x
unfolding patch_bytes
patch_elsewhere p mem t bytes x out = ground (arith, write_elsewhere mem t bytes x out)

module _ (p : Platform) (target detour len : ℕ) (m : Machine) (x : ℕ)
    (away : Outside target len x) where
  plant_at_elsewhere :
      (over back : Bytes) (tr : ℕ)
      → length over ≤ len
      → Outside tr (len + length back) x
      → (plant_at p target len back over tr m).0.memory x ≡ m.memory x
  unfolding plant_at
  plant_at_elsewhere over back tr fits out =
      let copied = write m.memory tr (read m.memory target len) in
      patch_elsewhere p (write copied (tr + len) back) target (padded over len) x
        (rw (length-padded over len fits) away)
      ∙ write_elsewhere copied (tr + len) back x (past out)
      ∙ write_elsewhere m.memory tr (read m.memory target len) x (rw length-read (before out))
    where
      past : Outside tr (len + length back) x → Outside (tr + len) (length back) x
      past (inl h) = inl (omega arith)
      past (inr h) = inr (omega arith)

      before : Outside tr (len + length back) x → Outside tr len x
      before (inl h) = inl (omega arith)
      before (inr h) = inr (omega arith)

  mapped_elsewhere :
      (size : ℕ) (over : Bytes) (back : ℕ → Bytes) (o : Option ℕ)
      → length over ≤ len
      → ((at : ℕ) → length (back at) ≡ size)
      → ((at : ℕ) → o ≡ some at → Outside at (len + size) x)
      → (mapped (λ at. plant_at p target len (back at) over at) o m).0.memory x ≡ m.memory x
  mapped_elsewhere size over back none fits sized out = refl
  mapped_elsewhere size over back (some at) fits sized out =
      plant_at_elsewhere over (back at) at fits (rw (sized at) (out at refl))

  module _ (unmapped : Unmapped p x) where
    hook_jump_n_elsewhere : (hook_jump_n p target detour len m).0.memory x ≡ m.memory x
    unfolding hook_jump_n
    hook_jump_n_elsewhere =
        elim (Bool-cases (target == 0 || detour == 0 || ltb len 5 || ltb 64 len)) [
          | inl refused ↦ rw refused refl
          | inr free ↦ rw free (
              mapped_elsewhere 5 (jump_rel target detour) (λ at. jump_rel (at + len) (target + len))
                (p.map m.maps (len + 5)) (ground arith) (λ at. omega arith)
                (unmapped m.maps (len + 5)))
        ]

    hook_jump_abs_elsewhere : (hook_jump_abs p target detour len m).0.memory x ≡ m.memory x
    unfolding hook_jump_abs
    hook_jump_abs_elsewhere =
        elim (Bool-cases (target == 0 || detour == 0 || ltb len 6 || ltb 64 len)) [
          | inl refused ↦ rw refused refl
          | inr free ↦ rw free (
              mapped_elsewhere 7 (push_ret detour) (λ at. move_jump (target + len))
                (p.map m.maps (len + 7)) (ground arith) (λ at. omega arith)
                (unmapped m.maps (len + 7)))
        ]

    -- Whether it succeeds or not, HookAuto changes no byte but those of the target's prefix and of
    -- the blocks that mmap gives.
    pub hook_auto_elsewhere : (hook_auto p target detour len m).0.memory x ≡ m.memory x
    unfolding hook_auto
    hook_auto_elsewhere = ground (arith, hook_jump_n_elsewhere, hook_jump_abs_elsewhere)
