-- ===== src/Hooks/Jumps/Planted.antt =====
-- What the two writes of a hook leave in memory.
use japlusproxy.Prelude.{
  ℕ, zero, suc, ◌+◌, ◌-◌, ◌≤◌, ◌<◌, ◌≡◌, ◌⊎◌, inl, inr, refl, ◌∙◌, Bytes, true, some, [], ◌∷◌, ◌++◌,
  arith, length, length-append, get_or, replicate, Bool-cases,
}
use japlusproxy.Memory.{Memory, read, write}
use japlusproxy.Memory.Laws.{
  Outside, write_elsewhere, write_at, length-read, read_cong, read-write_all,
}
use japlusproxy.Hooks.Patch.{Platform, patch_bytes}
use japlusproxy.Hooks.Jumps.{Machine, padded, plant_at}
use japlusproxy.Hooks.Jumps.Lands.{Stands}

-- What was planted: `over` at the target, the prefix and `back` at the trampoline, no other byte.
pub record Planted (before after : Memory) (target len tr : ℕ) (over back : Bytes) : Type 0 where
  pub code : Stands after target over
  pub resumes : Stands after (tr + len) back
  pub prefix : read after tr len ≡ read before target len
  pub elsewhere :
      (x : ℕ) → Outside target len x → Outside tr (len + length back) x → after x ≡ before x

length-replicate : (n b : ℕ) → length (replicate n b) ≡ n
length-replicate zero b = refl
length-replicate (suc n) b = omega (arith, length-replicate n b)

pub length-padded : (over : Bytes) (len : ℕ) → length over ≤ len → length (padded over len) ≡ len
length-padded over len h = omega (
  arith,
  length-append over (replicate (len - length over) 0x90),
  length-replicate (len - length over) 0x90,
)

get_or-append : (a b : Bytes) (i : ℕ) → i < length a → get_or (a ++ b) i 0 ≡ get_or a i 0
get_or-append [] b i h = absurd (omega arith)
get_or-append (x ∷ a) b zero h = refl
get_or-append (x ∷ a) b (suc i) h = get_or-append a b i (omega arith)

-- The mapping does not overlap the target.
abbrev pub IsApart : ℕ → ℕ → ℕ → ℕ → Type 0
IsApart target len tr size = (tr + size ≤ target) ⊎ (target + len ≤ tr)

module _ (mem : Memory) (target len tr : ℕ) (over back : Bytes) (fits : length over ≤ len)
    (apart : IsApart target len tr (len + length back)) where
  abbrev copied : Memory
  copied = write mem tr (read mem target len)

  abbrev filled : Memory
  filled = write copied (tr + len) back

  abbrev after : Memory
  after = write filled target (padded over len)

  apart_at : (x : ℕ) → tr ≤ x → x < tr + (len + length back) → after x ≡ filled x
  apart_at x lo hi =
      write_elsewhere filled target (padded over len) x
        (rw (length-padded over len fits) (outside apart))
    where
      outside : IsApart target len tr (len + length back) → Outside target len x
      outside (inl h) = inl (omega arith)
      outside (inr h) = inr (omega arith)

  prefix_kept : read after tr len ≡ read mem target len
  prefix_kept =
      read_cong after copied tr len (λ x lo hi.
        apart_at x lo (omega arith) ∙ write_elsewhere copied (tr + len) back x (inl (omega arith)))
      ∙ rw (length-read mem target len) at (read-write_all mem tr (read mem target len))

  planted : Planted mem after target len tr over back
  planted = record {
    code = λ x i e h.
        write_at filled target (padded over len) x i e
          (rw (length-padded over len fits) (omega arith))
        ∙ get_or-append over (replicate (len - length over) 0x90) i h;
    resumes =
        λ x i e h. apart_at x (omega arith) (omega arith) ∙ write_at copied (tr + len) back x i e h;
    prefix = prefix_kept;
    elsewhere = λ x here there.
        write_elsewhere filled target (padded over len) x (rw (length-padded over len fits) here)
        ∙ write_elsewhere copied (tr + len) back x (past there)
        ∙ write_elsewhere mem tr (read mem target len) x
            (rw (length-read mem target len) (before there));
  }
    where
      past : {x : ℕ} → Outside tr (len + length back) x → Outside (tr + len) (length back) x
      past (inl h) = inl (omega arith)
      past (inr h) = inr (omega arith)

      before : {x : ℕ} → Outside tr (len + length back) x → Outside tr len x
      before (inl h) = inl (omega arith)
      before (inr h) = inr (omega arith)

patch_bytes_done :
    (p : Platform) (mem : Memory) (dst : ℕ) (src : Bytes)
    → (patch_bytes p mem dst src).1 ≡ true
    → (patch_bytes p mem dst src).0 ≡ write mem dst src
unfolding patch_bytes
patch_bytes_done p mem dst src h = ground arith

module _ (p : Platform) (target len : ℕ) (m : Machine) where
  pub plant_at-Planted :
      (over back : Bytes) (tr tr' : ℕ)
      → length over ≤ len
      → IsApart target len tr (len + length back)
      → (plant_at p target len back over tr m).1 ≡ some tr'
      → (tr' ≡ tr)
        × Planted m.memory (plant_at p target len back over tr m).0.memory target len tr over back
  unfolding plant_at
  plant_at-Planted over back tr tr' fits apart h =
      let filled = write (write m.memory tr (read m.memory target len)) (tr + len) back in
      elim (Bool-cases (patch_bytes p filled target (padded over len)).1) [
        | inl done ↦ (
          cc (rw done at h),
          rw (patch_bytes_done p filled target (padded over len) done)
              (planted m.memory target len tr over back fits apart),
        )
        | inr failed ↦ cc (rw failed at h)
      ]
