-- ===== src/Hooks/Plant/Restore.antt =====
-- RemoveHooks writes the bytes of its inventory back.
use native.Mathlib.Decide.{dec_lt}
use japlusproxy.Prelude.{
  ℕ, ◌+◌, ◌-◌, ◌≤◌, ◌<◌, ◌≡◌, ◌≢◌, ◌⊎◌, inl, inr, ◌∙◌, Bytes, List, [], ◌∷◌, arith, length, get_or,
}
use japlusproxy.Memory.{Memory}
use japlusproxy.Memory.Laws.{Outside, write_at}
use japlusproxy.Hooks.Patch.{Platform, patch_bytes}
use japlusproxy.Hooks.Patch.Pages.{AllWritable, make_writable_lem}
use japlusproxy.Hooks.Jumps.Elsewhere.{patch_elsewhere}
use japlusproxy.Hooks.Inventory.{Entry, remove_hooks}

-- The address is in the block of an entry.
abbrev pub Covered : ℕ → List Entry → Type 0
Covered x [] = ⊥
Covered x (e ∷ es) = ((e.target ≤ x) × (x < e.target + length e.orig)) ⊎ Covered x es

-- The entries hold bytes of the memory `orig`.
abbrev pub AllSaved : Memory → List Entry → Type 0
AllSaved orig [] = Unit
AllSaved orig (e ∷ es) =
    (e.target ≢ 0)
    × ((x : ℕ)
        → e.target ≤ x
        → x < e.target + length e.orig
        → get_or e.orig (x - e.target) 0 ≡ orig x)
    × AllSaved orig es

pub in_or_out : (t n x : ℕ) → ((t ≤ x) × (x < t + n)) ⊎ Outside t n x
in_or_out t n x = elim (dec_lt x t) [
  | yes below ↦ inr (inl below)
  | no above ↦ elim (dec_lt x (t + n)) [
    | yes inside ↦ inl (omega arith, inside)
    | no behind ↦ inr (inr (omega arith))
  ]
]

-- Writing saved bytes back sets the addresses of the block right, and leaves the others.
module _ (p : Platform) (orig : Memory) (writable : AllWritable p) where
  patch_inside :
      (mem : Memory) (t : ℕ) (bytes : Bytes) (x : ℕ)
      → t ≢ 0
      → t ≤ x
      → x < t + length bytes
      → (patch_bytes p mem t bytes).0 x ≡ get_or bytes (x - t) 0
  unfolding patch_bytes
  patch_inside mem t bytes x ne lo hi = ground (
    arith,
    make_writable_lem p writable t (length bytes),
    write_at mem t bytes x (x - t) (omega arith) (omega arith),
  )

  pub remove_hooks_sets :
      (es : List Entry) (mem : Memory) (x : ℕ)
      → AllSaved orig es
      → (mem x ≡ orig x) ⊎ Covered x es
      → remove_hooks p es mem x ≡ orig x
  unfolding remove_hooks
  remove_hooks_sets [] mem x saved (inl same) = same
  remove_hooks_sets [] mem x saved (inr none_there) = absurd none_there
  remove_hooks_sets (e ∷ es) mem x saved h =
      remove_hooks_sets es (patch_bytes p mem e.target e.orig).0 x saved.2
        (elim (in_or_out e.target (length e.orig) x) [
          | inl inside ↦ inl (
              patch_inside mem e.target e.orig x saved.0 inside.0 inside.1
              ∙ saved.1 x inside.0 inside.1)
          | inr out ↦ later (patch_elsewhere p mem e.target e.orig x out) out h
        ])
    where
      later :
          (patch_bytes p mem e.target e.orig).0 x ≡ mem x
          → Outside e.target (length e.orig) x
          → (mem x ≡ orig x) ⊎ Covered x (e ∷ es)
          → ((patch_bytes p mem e.target e.orig).0 x ≡ orig x) ⊎ Covered x es
      later same out (inl right) = inl (same ∙ right)
      later same (inl out) (inr (inl inside)) = absurd (omega arith)
      later same (inr out) (inr (inl inside)) = absurd (omega arith)
      later same out (inr (inr other)) = inr other
