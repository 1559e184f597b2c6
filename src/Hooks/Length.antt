-- ===== src/Hooks/Length.antt =====
-- HookLenOk of proxy/patch.c: a prefix ends where an instruction ends.
use japlusproxy.Prelude.{
  ℕ, zero, suc, ◌+◌, ◌≤◌, ◌<◌, ◌≡◌, ◌≢◌, ◌↔◌, refl, ap, Bool, true, false, ◌||◌, Option, none, some,
  arith, ltb, ◌==◌, Bool-cases, inl, inr, if◌then◌else◌,
}
use japlusproxy.Memory.{Memory}
use japlusproxy.Hooks.Patch.{Platform}

-- The loop, from the offset `n` on; none where the fuel runs out.
unfoldable pub len_loop : Platform → Memory → ℕ → ℕ → ℕ → ℕ → Option Bool
len_loop p mem addr want zero n = none
len_loop p mem addr want (suc fuel) n =
    let d = p.decode mem (addr + n) in
    let rest = len_loop p mem addr want fuel (n + d.len) in
    if ltb n want then (if d.len == 0 || d.error then some false else rest) else some (n == want)

abbrev is_yes : Option Bool → Bool
is_yes none = false
is_yes (some b) = b

is_yes-true : (o : Option Bool) → is_yes o ≡ true → o ≡ some true
is_yes-true none h = cc
is_yes-true (some b) h = ap some h

-- Each round takes a byte or more, so one more than `want` rounds are enough.
unfoldable pub hook_len_ok : Platform → Memory → ℕ → ℕ → Bool
unfolding len_loop
hook_len_ok p mem addr want =
    if addr == 0 || want == 0 || ltb 64 want
    then false
    else is_yes (len_loop p mem addr want (want + 1) 0)

module _ (p : Platform) (mem : Memory) (addr : ℕ) where
  -- An instruction that the decoder can read stands at the offset.
  abbrev pub IsInstruction : ℕ → Type 0
  IsInstruction n = (0 < (p.decode mem (addr + n)).len) × ((p.decode mem (addr + n)).error ≡ false)

  -- Whole instructions stand from one offset to another.
  pub data Decodes : ℕ → ℕ → Type 0 where
    done : {n m : ℕ} → n ≡ m → Decodes n m
    next : {n m : ℕ} → IsInstruction n → Decodes (n + (p.decode mem (addr + n)).len) m → Decodes n m

  Decodes-le : {n m : ℕ} → Decodes n m → n ≤ m
  Decodes-le (done e) = omega arith
  Decodes-le (next i d) = omega (arith, Decodes-le d)

  len_loop-Decodes :
      (want fuel n : ℕ) → len_loop p mem addr want fuel n ≡ some true → Decodes n want
  unfolding len_loop
  len_loop-Decodes want zero n h = cc
  len_loop-Decodes want (suc fuel) n h = elim (Bool-cases (ltb n want)) [
    | inr past ↦ done (ground arith)
    | inl before ↦ next (ground arith, ground arith) (len_loop-Decodes want fuel _ (ground arith))
  ]

  Decodes-len_loop :
      (want fuel n : ℕ)
      → want < n + fuel
      → Decodes n want
      → len_loop p mem addr want fuel n ≡ some true
  unfolding len_loop
  Decodes-len_loop want zero n enough d = absurd (omega (arith, Decodes-le d))
  Decodes-len_loop want (suc fuel) n enough (done e) = ground arith
  Decodes-len_loop want (suc fuel) n enough (next i d) =
      let rest = Decodes-len_loop want fuel _ (omega arith) d in
      let room : n < want = omega (arith, Decodes-le d) in ground arith

  len_loop_total :
      (want fuel n : ℕ)
      → 0 < fuel
      → want < n + fuel
      → (b : Bool) × (len_loop p mem addr want fuel n ≡ some b)
  unfolding len_loop
  len_loop_total want zero n some_fuel enough = absurd (omega arith)
  len_loop_total want (suc fuel) n some_fuel enough = elim (Bool-cases (ltb n want)) [
    | inr past ↦ (n == want, rw past refl)
    | inl before ↦
        elim (Bool-cases ((p.decode mem (addr + n)).len == 0 || (p.decode mem (addr + n)).error)) [
          | inl bad ↦ (false, rw (before, bad) refl)
          | inr good ↦
              let longer : 0 < (p.decode mem (addr + n)).len = ground arith in
              let room : n < want = ground arith in
              let (b, rest) =
                len_loop_total want fuel (n + (p.decode mem (addr + n)).len) (omega arith)
                  (omega arith) in
              (b, rw (before, good) rest)
        ]
  ]

  -- Whatever the decoder answers, the loop over a prefix of `want` bytes ends within `want` rounds and
  -- the last test.
  pub len_loop_ends : (want : ℕ) → (b : Bool) × (len_loop p mem addr want (want + 1) 0 ≡ some b)
  len_loop_ends want = len_loop_total want (want + 1) 0 (omega arith) (omega arith)

  -- A prefix is accepted exactly if the address is not null, the prefix has 1 to 64 bytes, and whole
  -- instructions stand from its start to its end.
  pub hook_len_ok_iff :
      (want : ℕ)
      → (hook_len_ok p mem addr want ≡ true)
        ↔ ((addr ≢ 0) × (0 < want) × (want ≤ 64) × Decodes 0 want)
  unfolding hook_len_ok
  hook_len_ok_iff want = (
    λ h. (
      ground arith,
      ground arith,
      ground arith,
      len_loop-Decodes want (want + 1) 0 (is_yes-true _ (ground arith)),
    ),
    λ h. let loop = Decodes-len_loop want (want + 1) 0 (omega arith) h.3 in ground arith,
  )
