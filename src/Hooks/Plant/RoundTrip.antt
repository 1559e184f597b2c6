-- ===== src/Hooks/Plant/RoundTrip.antt =====
-- Planting hooks and removing them again.
use japlusproxy.Prelude.{
  ℕ, ◌+◌, ◌-◌, ◌≤◌, ◌<◌, ◌≡◌, ◌≢◌, ◌⊎◌, inl, inr, refl, ap, ◌∙◌, false, ◌||◌, some, List, [], ◌∷◌,
  ◌++◌, arith, length, length-append, get_or, ltb, leb, ◌==◌, Bool-cases,
}
use japlusproxy.Memory.{Memory, read}
use japlusproxy.Memory.Laws.{length-read, get_or-read}
use japlusproxy.Hooks.Patch.{Platform}
use japlusproxy.Hooks.Jumps.{hook_auto}
use japlusproxy.Hooks.Patch.Pages.{AllWritable}
use japlusproxy.Hooks.Jumps.Elsewhere.{Unmapped, hook_auto_elsewhere}
use japlusproxy.Hooks.Inventory.{Entry, track_hook, remove_hooks}
use japlusproxy.Hooks.Length.{hook_len_ok}
use japlusproxy.Hooks.Plant.{World, plant_checked, plant_hook}
use japlusproxy.Hooks.Plant.Restore.{Covered, AllSaved, in_or_out, remove_hooks_sets}
use japlusproxy.Hooks.Plant.Apart.{
  Hook, IsFit, ApartFrom, AllFit, AllApart, Covered-apart, Covered-append_left,
  Covered-append_right, AllApart-append, AllSaved-append, AllApart-nil,
}

unfoldable pub plant_all : Platform → List Hook → World → World
plant_all p [] w = w
plant_all p (h ∷ hs) w = plant_all p hs (plant_hook p h.name (some h.addr) h.len h.detour w).0

-- What holds between the hooks: the inventory can undo all that was done to `orig`.
record Kept (p : Platform) (orig : Memory) (hs : List Hook) (w : World) : Type 0 where
  saved : AllSaved orig w.planted
  apart : AllApart w.planted hs
  room : length w.planted + length hs ≤ 8
  same : (x : ℕ) → Unmapped p x → (w.machine.memory x ≡ orig x) ⊎ Covered x w.planted

module _ (p : Platform) (orig : Memory) (h : Hook) (hs : List Hook) (w : World) (fit : IsFit p h)
    (later : ApartFrom h hs) (k : Kept p orig (h ∷ hs) w) where
  abbrev entry : Entry
  entry = record { name = h.name; target = h.addr; orig = read w.machine.memory h.addr h.len }

  entry_saved :
      (x : ℕ) → h.addr ≤ x → x < h.addr + h.len → get_or entry.orig (x - h.addr) 0 ≡ orig x
  entry_saved x lo hi = elim (k.same x (fit.2 x lo hi)) [
    | inl unchanged ↦
        get_or-read w.machine.memory h.addr h.len (x - h.addr) 0 (omega arith)
        ∙ ap w.machine.memory (omega arith)
        ∙ unchanged
    | inr covered ↦ absurd (Covered-apart w.planted h x k.apart.0 covered lo hi)
  ]

  tracked :
      h.addr ≢ 0
      → track_hook w.machine.memory h.name h.addr h.len w.planted ≡ w.planted ++ entry ∷ []
  unfolding track_hook
  tracked ne =
      let taken : (leb 8 (length w.planted) || h.addr == 0 || h.len == 0 || ltb 8 h.len) ≡ false =
        ground (arith, k.room) in
      rw taken refl

  length_entry : length entry.orig ≡ h.len
  length_entry = length-read w.machine.memory h.addr h.len

  abbrev hooked : Memory
  hooked = (hook_auto p h.addr h.detour h.len w.machine).0.memory

  still :
      (x : ℕ)
      → hooked x ≡ w.machine.memory x
      → (w.machine.memory x ≡ orig x) ⊎ Covered x w.planted
      → (hooked x ≡ orig x) ⊎ Covered x (w.planted ++ entry ∷ [])
  still x kept (inl same) = inl (kept ∙ same)
  still x kept (inr covered) = inr (Covered-append_left w.planted entry x covered)

  -- The hook takes its entry into the inventory, whether it is planted or not.
  checked-Kept : h.addr ≢ 0 → Kept p orig hs (plant_checked p h.name h.addr h.len h.detour w).0
  unfolding plant_checked
  checked-Kept ne = rw (tracked ne) (record {
    saved =
        AllSaved-append orig w.planted entry k.saved ne
          (λ x lo hi. entry_saved x lo (rw length_entry at hi));
    apart = AllApart-append w.planted entry hs h k.apart.1 refl length_entry later;
    room = omega (arith, k.room, length-append w.planted (entry ∷ []));
    same = λ x u. elim (in_or_out h.addr h.len x) [
      | inl inside ↦
          inr (Covered-append_right w.planted entry x inside.0 (rw length_entry inside.1))
      | inr out ↦
          still x (hook_auto_elsewhere p h.addr h.detour h.len w.machine x out u) (k.same x u)
    ];
  })

  unchanged-Kept : (n : ℕ) → Kept p orig hs (record w { tried = n })
  unchanged-Kept n = record {
    saved = k.saved;
    apart = k.apart.1;
    room = omega (arith, k.room);
    same = k.same;
  }

  plant_hook-Kept : Kept p orig hs (plant_hook p h.name (some h.addr) h.len h.detour w).0
  unfolding plant_hook
  plant_hook-Kept = elim (Bool-cases (h.addr == 0)) [
    | inl null ↦ rw null (unchanged-Kept w.tried)
    | inr there ↦ elim (Bool-cases (hook_len_ok p w.machine.memory h.addr h.len)) [
      | inr short ↦ rw (there, short) (unchanged-Kept (w.tried + 1))
      | inl fits ↦ rw (there, fits) (checked-Kept (λ e. ground (arith, e)))
    ]
  ]

plant_all-Kept :
    (p : Platform) (orig : Memory) (hs : List Hook) (w : World)
    → AllFit p hs
    → Kept p orig hs w
    → Kept p orig [] (plant_all p hs w)
unfolding plant_all
plant_all-Kept p orig [] w fit k = k
plant_all-Kept p orig (h ∷ hs) w fit k =
    plant_all-Kept p orig hs (plant_hook p h.name (some h.addr) h.len h.detour w).0 fit.2
      (plant_hook-Kept p orig h hs w fit.0 fit.1 k)

-- From an empty inventory, up to eight hooks, whose prefixes have 1 to 8 bytes, do not overlap and
-- are not in what mmap gives: planted one after the other, as far as that succeeds, and then removed
-- where memory can be written, they leave every byte outside the blocks of mmap as it was.
pub remove_hooks-plant_all :
    (p : Platform) (hs : List Hook) (w : World) (x : ℕ)
    → AllWritable p
    → AllFit p hs
    → w.planted ≡ []
    → length hs ≤ 8
    → Unmapped p x
    → remove_hooks p (plant_all p hs w).planted (plant_all p hs w).machine.memory x
      ≡ w.machine.memory x
remove_hooks-plant_all p hs w x writable fit empty few unmapped =
    let k = plant_all-Kept p w.machine.memory hs w fit start in
    remove_hooks_sets p w.machine.memory writable (plant_all p hs w).planted
      (plant_all p hs w).machine.memory x k.saved (k.same x unmapped)
  where
    start : Kept p w.machine.memory hs w
    start = record {
      saved = rw empty tt;
      apart = rw empty (AllApart-nil hs);
      room = rw empty (omega arith);
      same = λ y u. inl refl;
    }
