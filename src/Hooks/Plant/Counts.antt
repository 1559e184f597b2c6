-- ===== src/Hooks/Plant/Counts.antt =====
-- What one hook adds to the counters and to the inventory.
use japlusproxy.Prelude.{
  ℕ, ◌+◌, ◌≤◌, ◌<◌, ◌≡◌, ◌⊎◌, inl, inr, refl, Bytes, false, ◌||◌, Option, none, some, List, [], ◌∷◌,
  ◌++◌, arith, length, ltb, leb, ◌==◌, Bool-cases,
}
use japlusproxy.Info.Sanitize.{same_bytes}
use japlusproxy.Memory.{Memory}
use japlusproxy.Hooks.Patch.{Platform}
use japlusproxy.Hooks.Jumps.{hook_auto}
use japlusproxy.Hooks.Inventory.{Entry, track_hook, hook_armed}
use japlusproxy.Hooks.Length.{hook_len_ok}
use japlusproxy.Hooks.Plant.{World, plant_hook}

-- The inventory has no hook of the name.
abbrev pub NoName : Bytes → List Entry → Type 0
NoName name [] = Unit
NoName name (e ∷ es) = (same_bytes e.name name ≡ false) × NoName name es

pub hook_armed-NoName :
    (mem : Memory) (name : Bytes) (detour : ℕ) (es : List Entry)
    → NoName name es
    → hook_armed mem name detour es ≡ false
unfolding hook_armed
hook_armed-NoName mem name detour [] n = refl
hook_armed-NoName mem name detour (e ∷ es) n = rw n.0 (hook_armed-NoName mem name detour es n.1)

NoName-append :
    (q : Bytes) (es : List Entry) (e : Entry)
    → NoName q es
    → same_bytes e.name q ≡ false
    → NoName q (es ++ e ∷ [])
NoName-append q [] e n h = (h, tt)
NoName-append q (x ∷ es) e n h = (n.0, NoName-append q es e n.1 h)

track_hook-NoName :
    (mem : Memory) (q name : Bytes) (target len : ℕ) (es : List Entry)
    → NoName q es
    → (same_bytes name q ≡ false) ⊎ (8 < len)
    → NoName q (track_hook mem name target len es)
unfolding track_hook
track_hook-NoName mem q name target len es n h =
    elim (Bool-cases (leb 8 (length es) || target == 0 || len == 0 || ltb 8 len)) [
      | inl kept ↦ rw kept n
      | inr added ↦ elim h [
        | inl other ↦ rw added (NoName-append q es _ n other)
        | inr long ↦ absurd (ground arith)
      ]
    ]

-- What a hook may add, by whether it can be counted as armed.
pub record Adds (before after : World) (most : ℕ) : Type 0 where
  pub tried_low : before.tried ≤ after.tried
  pub tried_high : after.tried ≤ before.tried + 1
  pub armed_low : before.armed ≤ after.armed
  pub armed_high : after.armed ≤ before.armed + most

module _ (p : Platform) (name : Bytes) (len detour : ℕ) (w : World) where
  pub plant_hook-Adds : (addr : Option ℕ) → Adds w (plant_hook p name addr len detour w).0 1
  unfolding plant_hook
  plant_hook-Adds none = ground arith
  plant_hook-Adds (some a) = ground arith

  -- A hook with a long prefix is not in the inventory, and is not found armed.
  pub plant_hook-Adds_none :
      (addr : Option ℕ)
      → NoName name w.planted
      → 8 < len
      → Adds w (plant_hook p name addr len detour w).0 0
  unfolding plant_hook
  plant_hook-Adds_none none n long = ground arith
  plant_hook-Adds_none (some a) n long =
      let machine = (hook_auto p a detour len w.machine).0 in
      let tracked = track_hook-NoName w.machine.memory name name a len w.planted n (inr long) in
      ground (
        arith,
        hook_armed-NoName machine.memory name detour
            (track_hook w.machine.memory name a len w.planted) tracked,
      )

  pub plant_hook-NoName :
      (addr : Option ℕ) (q : Bytes)
      → NoName q w.planted
      → (same_bytes name q ≡ false) ⊎ (8 < len)
      → NoName q (plant_hook p name addr len detour w).0.planted
  unfolding plant_hook
  plant_hook-NoName none q n h = n
  plant_hook-NoName (some a) q n h = elim (Bool-cases (a == 0)) [
    | inl null ↦ rw null n
    | inr there ↦ elim (Bool-cases (hook_len_ok p w.machine.memory a len)) [
      | inl fits ↦ rw (there, fits) (track_hook-NoName w.machine.memory q name a len w.planted n h)
      | inr short ↦ rw (there, short) n
    ]
  ]
