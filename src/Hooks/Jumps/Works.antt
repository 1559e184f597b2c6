-- ===== src/Hooks/Jumps/Works.antt =====
-- When HookAuto succeeds.
use native.Mathlib.Decide.{dec_le}
use japlusproxy.Prelude.{
  ℕ, ◌+◌, ◌^◌, ◌≤◌, ◌<◌, ◌≡◌, ◌≢◌, ◌↔◌, inl, inr, refl, ap, ◌∙◌, Bytes, true, false, ◌||◌, Option,
  none, some, arith, length, ltb, ◌==◌, Bool-cases,
}
use japlusproxy.Hooks.Patch.{Platform, make_writable, patch_bytes}
use japlusproxy.Hooks.Jumps.{Machine, jump_rel, plant_at, mapped, hook_jump_n, hook_auto}
use japlusproxy.Hooks.Jumps.Planted.{IsApart, length-padded}
use japlusproxy.Hooks.Jumps.Hooked.{
  Hooked, hook_auto-hook_jump_n, hook_auto_short, hook_auto-Hooked,
}

-- What HookAuto needs, and the mapping that it is given.
pub record Ready (p : Platform) (target detour len : ℕ) (m : Machine) (tr : ℕ) : Type 0 where
  pub there : target ≢ 0
  pub somewhere : detour ≢ 0
  pub long : 5 ≤ len
  pub short : len ≤ 64
  pub map : p.map m.maps (len + 5) ≡ some tr
  pub writable : make_writable p target len ≡ true

plant_at_done :
    (p : Platform) (target len : ℕ) (back over : Bytes) (tr : ℕ) (m : Machine)
    → target ≢ 0
    → 0 < len
    → length over ≤ len
    → make_writable p target len ≡ true
    → (plant_at p target len back over tr m).1 ≡ some tr
unfolding plant_at patch_bytes
plant_at_done p target len back over tr m there some_len fits writable =
    let free : (target == 0 || len == 0) ≡ false = ground arith in
    rw (length-padded over len fits, free, writable) refl

hook_auto_done :
    (p : Platform) (target detour len : ℕ) (m : Machine) (tr : ℕ)
    → Ready p target detour len m tr
    → (hook_auto p target detour len m).1 ≡ some tr
unfolding hook_jump_n
hook_auto_done p target detour len m tr r =
    let free : (target == 0 || detour == 0 || ltb len 5 || ltb 64 len) ≡ false =
      ground (arith, r.there, r.somewhere, r.long, r.short) in
    rw (hook_auto-hook_jump_n p target detour len m r.long, free, r.map)
      (plant_at_done p target len _ (jump_rel target detour) tr m r.there (omega (arith, r.long))
        (omega (arith, r.long)) r.writable)

done-plant_at :
    (p : Platform) (target len : ℕ) (back over : Bytes) (at tr : ℕ) (m : Machine)
    → length over ≤ len
    → (plant_at p target len back over at m).1 ≡ some tr
    → (at ≡ tr) × (make_writable p target len ≡ true)
unfolding plant_at patch_bytes
done-plant_at p target len back over at tr m fits h =
    let whole = length-padded over len fits in
    elim (Bool-cases (target == 0 || len == 0)) [
      | inl refused ↦ cc (rw (whole, refused) at h)
      | inr free ↦ elim (Bool-cases (make_writable p target len)) [
        | inl writable ↦
            let same : ◌≡◌ {A = Option ℕ} (some at) (some tr) = rw (whole, free, writable) at h in
            (cc same, writable)
        | inr closed ↦ cc (rw (whole, free, closed) at h)
      ]
    ]

Ready-mapped :
    (p : Platform) (target detour len : ℕ) (m : Machine) (tr : ℕ) (o : Option ℕ) (back : ℕ → Bytes)
    → p.map m.maps (len + 5) ≡ o
    → (target == 0 || detour == 0 || ltb len 5 || ltb 64 len) ≡ false
    → (mapped (λ at. plant_at p target len (back at) (jump_rel target detour) at) o m).1 ≡ some tr
    → Ready p target detour len m tr
Ready-mapped p target detour len m tr none back e free h = cc
Ready-mapped p target detour len m tr (some at) back e free h =
    let (same, writable) =
      done-plant_at p target len (back at) (jump_rel target detour) at tr m (ground arith) h in
    record {
      there = ground arith;
      somewhere = ground arith;
      long = ground arith;
      short = ground arith;
      map = e ∙ ap some same;
      writable = writable;
    }

needed :
    (p : Platform) (target detour len : ℕ) (m : Machine) (tr : ℕ)
    → (hook_jump_n p target detour len m).1 ≡ some tr
    → Ready p target detour len m tr
unfolding hook_jump_n
needed p target detour len m tr h =
    elim (Bool-cases (target == 0 || detour == 0 || ltb len 5 || ltb 64 len)) [
      | inl refused ↦ cc (rw refused at h)
      | inr free ↦
          Ready-mapped p target detour len m tr (p.map m.maps (len + 5))
            (λ at. jump_rel (at + len) (target + len)) refl free (rw free at h)
    ]

-- HookAuto gives the trampoline `tr` exactly if neither address is null, the prefix has 5 to 64
-- bytes, mmap gives `tr` for the prefix and a jump, and the pages of the prefix can be written; in
-- all other cases it fails.
pub hook_auto_iff :
    (p : Platform) (target detour len : ℕ) (m : Machine) (tr : ℕ)
    → ((hook_auto p target detour len m).1 ≡ some tr) ↔ Ready p target detour len m tr
hook_auto_iff p target detour len m tr = (
  λ h. elim (dec_le 5 len) [
    | no small ↦ cc (rw (hook_auto_short p target detour len m (omega arith)) at h)
    | yes long ↦
        needed p target detour len m tr (rw (hook_auto-hook_jump_n p target detour len m long) at h)
  ],
  hook_auto_done p target detour len m tr,
)

-- Where HookAuto has what it needs, and the mapping is apart from the target, at addresses of 32
-- bits: it gives the mapping as the trampoline, a call of the target lands at the detour, the
-- trampoline has the target's first bytes, and behind them control goes on behind those of the
-- target; no byte changes elsewhere.
pub hook_auto-Ready :
    (p : Platform) (target detour len : ℕ) (m : Machine) (tr : ℕ)
    → Ready p target detour len m tr
    → IsApart target len tr (len + 5)
    → detour < 2 ^ 32
    → target + len < 2 ^ 32
    → ((hook_auto p target detour len m).1 ≡ some tr)
      × Hooked m.memory (hook_auto p target detour len m).0.memory target detour len 5 tr
hook_auto-Ready p target detour len m tr r apart reach span =
    let done = hook_auto_done p target detour len m tr r in
    (
      done,
      hook_auto-Hooked p target detour len m tr reach span
          (λ at e. let same : tr ≡ at = ground (arith, r.map) in rw (← same) apart) done,
    )
