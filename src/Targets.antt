-- ===== src/Targets.antt =====
-- ResolveEngineAbs of proxy/patch.c: the test that an address of the engine holds the function that
-- is to be hooked.
use native.Mathlib.Decide.{dec_le}
use japlusproxy.Memory.{Memory, word_at}
use japlusproxy.Prelude.{
  ℕ, zero, suc, ◌+◌, ◌-◌, ◌≤◌, ◌<◌, ◌≡◌, ◌↔◌, refl, inl, inr, Bytes, Bool, true, false, not, ◌&&◌,
  ◌||◌, Option, none, some, [], ◌∷◌, arith, length, ltb, ◌==◌, ==_iff, Bool-cases, and-true,
  if◌then◌else◌,
}

-- memcmp(addr, expect, elen) == 0
unfoldable pub matches : Memory → ℕ → Bytes → Bool
matches mem a [] = true
matches mem a (b ∷ bs) = mem a == b && matches mem (a + 1) bs

-- The loop over the offsets from `i` on, of which `k` are left, up to the first that holds the
-- anchor.
unfoldable pub finds : Memory → ℕ → ℕ → ℕ → ℕ → Bool
finds mem addr anchor i zero = false
finds mem addr anchor i (suc k) =
    word_at mem (addr + i) == anchor || finds mem addr anchor (i + 1) k

abbrev pub engine_base : ℕ
engine_base = 0x08048000

-- `expect` is the null pointer, or the `elen` bytes there. The offsets i with i + 4 <= scan are
-- scan - 3 in number.
unfoldable pub resolve_engine_abs : Memory → ℕ → Option Bytes → ℕ → ℕ → Option ℕ
resolve_engine_abs mem off none anchor scan = none
resolve_engine_abs mem off (some expect) anchor scan =
    let addr = engine_base + off in
    if length expect == 0 || ltb 8 (length expect) || not (matches mem addr expect)
    then none
    else if finds mem addr anchor 0 (scan - 3)
    then some addr
    else none

-- The bytes stand at the address.
abbrev pub Holds : Memory → ℕ → Bytes → Type 0
Holds mem a [] = Unit
Holds mem a (b ∷ bs) = (mem a ≡ b) × Holds mem (a + 1) bs

pub matches-Holds : (mem : Memory) (a : ℕ) (bs : Bytes) → (matches mem a bs ≡ true) ↔ Holds mem a bs
unfolding matches
matches-Holds mem a [] = (λ h. tt, λ h. refl)
matches-Holds mem a (b ∷ bs) =
    let rest = matches-Holds mem (a + 1) bs in
    (
      λ h.
          let (this, others) = and-true (mem a == b) (matches mem (a + 1) bs) h in
          ((==_iff (mem a) b).0 this, rest.0 others),
      λ h. rw ((==_iff (mem a) b).1 h.0) (rest.1 h.1),
    )

-- An offset in range that holds the anchor.
abbrev pub Anchored : Memory → ℕ → ℕ → ℕ → ℕ → Type 0
Anchored mem addr anchor lo hi = (j : ℕ) × (lo ≤ j) × (j < hi) × (word_at mem (addr + j) ≡ anchor)

finds-Anchored :
    (mem : Memory) (addr anchor i k : ℕ)
    → finds mem addr anchor i k ≡ true
    → Anchored mem addr anchor i (i + k)
unfolding finds
finds-Anchored mem addr anchor i zero h = cc
finds-Anchored mem addr anchor i (suc k) h = elim (Bool-cases (word_at mem (addr + i) == anchor)) [
  | inl here ↦ (i, omega arith, omega arith, (==_iff (word_at mem (addr + i)) anchor).0 here)
  | inr later ↦
      let (j, lo, hi, at) = finds-Anchored mem addr anchor (i + 1) k (rw later at h) in
      (j, omega arith, omega arith, at)
]

-- An anchor at `i` or behind, and not at `i`, stands behind it.
past :
    (mem : Memory) (addr anchor i j : ℕ)
    → i ≤ j
    → word_at mem (addr + j) ≡ anchor
    → (word_at mem (addr + i) == anchor) ≡ false
    → i + 1 ≤ j
past mem addr anchor i j lo at other = elim (dec_le (i + 1) j) [
  | yes behind ↦ behind
  | no here ↦
      let same : j ≡ i = omega arith in
      let stands : word_at mem (addr + i) ≡ anchor = rw same at at in
      absurd (cc ((==_iff (word_at mem (addr + i)) anchor).1 stands, other))
]

Anchored-finds :
    (mem : Memory) (addr anchor i k : ℕ)
    → Anchored mem addr anchor i (i + k)
    → finds mem addr anchor i k ≡ true
unfolding finds
Anchored-finds mem addr anchor i zero (j, lo, hi, at) = absurd (omega arith)
Anchored-finds mem addr anchor i (suc k) (j, lo, hi, at) =
    elim (Bool-cases (word_at mem (addr + i) == anchor)) [
      | inl here ↦ rw here refl
      | inr later ↦ rw later (
          Anchored-finds mem addr anchor (i + 1) k
            (j, past mem addr anchor i j lo at later, omega arith, at))
    ]

-- What the tests ask of the memory at `addr`.
abbrev pub IsTarget : Memory → ℕ → Bytes → ℕ → ℕ → Type 0
IsTarget mem addr expect anchor scan =
    (0 < length expect)
    × (length expect ≤ 8)
    × Holds mem addr expect
    × ((j : ℕ) × (j + 4 ≤ scan) × (word_at mem (addr + j) ≡ anchor))

-- An address is given exactly when it is the base plus the offset, one to eight bytes are expected
-- and stand there, and the anchor stands whole within the first `scan` bytes.
pub resolve_engine_abs_iff :
    (mem : Memory) (off : ℕ) (expect : Bytes) (anchor scan a : ℕ)
    → (resolve_engine_abs mem off (some expect) anchor scan ≡ some a)
      ↔ ((a ≡ engine_base + off) × IsTarget mem (engine_base + off) expect anchor scan)
unfolding resolve_engine_abs
resolve_engine_abs_iff mem off expect anchor scan a =
    let addr = engine_base + off in
    (
      λ h.
          let bytes : matches mem addr expect ≡ true = ground arith in
          let found : finds mem addr anchor 0 (scan - 3) ≡ true = ground arith in
          let (j, lo, hi, at) = finds-Anchored mem addr anchor 0 (scan - 3) found in
          (
            ground arith,
            (
              ground arith,
              ground arith,
              (matches-Holds mem addr expect).0 bytes,
              (j, omega arith, at),
            ),
          ),
      λ h.
          let (j, fits, at) = h.1.3 in
          let bytes = (matches-Holds mem addr expect).1 h.1.2 in
          let found =
            Anchored-finds mem addr anchor 0 (scan - 3) (j, omega arith, omega arith, at) in
          ground arith,
    )
