-- ===== src/Info/Names/Clean.antt =====
-- What a cleaned name is made of.
use japlusproxy.Prelude.{
  ℕ, ◌+◌, ◌-◌, ◌≤◌, ◌<◌, ◌≡◌, ◌≢◌, ap, ◌∙◌, inl, inr, Bytes, codes, Bool, false, ◌&&◌, ◌||◌, [],
  ◌∷◌, ◌++◌, arith, length, length-append, take, take_all, ltb, leb, ◌==◌, Bool-cases,
  if◌then◌else◌,
}
use japlusproxy.Text.Classes.{AllOf}
use japlusproxy.Info.Pairs.{NoSlash}
use japlusproxy.Info.Names.{
  is_breaking, starts_run, Cleaning, after_caret, put_byte, skip_leading, clean_loop, clean_name,
}

-- No control byte below the space, and none of the seven that break renderers and listings.
abbrev pub IsKept : ℕ → Type 0
IsKept c =
    (32 ≤ c) × (c ≢ 129) × (c ≢ 141) × (c ≢ 143) × (c ≢ 144) × (c ≢ 157) × (c ≢ 160) × (c ≢ 173)

abbrev pub AllKept : Bytes → Type 0
AllKept = AllOf IsKept

-- What the loop does not skip.
not_skipped : (c : ℕ) (run : Bool) → (ltb c 0x20 || is_breaking c || run) ≡ false → IsKept c
not_skipped c run h = (
  ground arith,
  ground arith,
  ground arith,
  ground arith,
  ground arith,
  ground arith,
  ground arith,
  ground arith,
)

AllKept-concat : (s : Bytes) (c : ℕ) → AllKept s → IsKept c → AllKept (s ++ c ∷ [])
AllKept-concat [] c a h = (h, tt)
AllKept-concat (x ∷ s) c a h = (a.0, AllKept-concat s c a.1 h)

-- What the loop keeps: the first byte that is put counts as colourless.
record IsCleaning (w : Cleaning) : Type 0 where
  short : length w.out ≤ 63
  shown : AllKept w.out
  counted : 0 < length w.out → 0 < w.colorless

put_byte-IsCleaning :
    (c : ℕ) (w : Cleaning)
    → IsKept c
    → length w.out + 1 < 64
    → IsCleaning w
    → IsCleaning (put_byte c w)
unfolding put_byte
put_byte-IsCleaning c w shown room i = record {
  short = rw length-append (omega arith);
  shown = AllKept-concat w.out c i.shown shown;
  counted = λ _. counts w.out c w.colorless i.counted;
}
  where
    counts :
        (out : Bytes) (c n : ℕ)
        → (0 < length out → 0 < n)
        → 0 < (if after_caret out && (leb b'0' c && leb c b'9' || c == b'#') then n else n + 1)
    counts [] c n h = omega arith
    counts (x ∷ out) c n h = let some_out = h (omega arith) in ground arith

clean_loop-IsCleaning :
    (outlen : ℕ) (s : Bytes) (w : Cleaning) → IsCleaning w → IsCleaning (clean_loop outlen s w)
unfolding clean_loop
clean_loop-IsCleaning outlen [] w i = i
clean_loop-IsCleaning outlen (c ∷ s) w i =
    elim (Bool-cases (ltb (length w.out + 1) outlen && ltb (length w.out + 1) 64)) [
      | inr full ↦ rw full i
      | inl room ↦ rw room (elim (Bool-cases (ltb c 0x20 || is_breaking c || starts_run (c ∷ s))) [
        | inl skipped ↦ rw skipped (clean_loop-IsCleaning outlen s w i)
        | inr kept ↦ rw kept (
            clean_loop-IsCleaning outlen s (put_byte c w)
              (put_byte-IsCleaning c w (not_skipped c (starts_run (c ∷ s)) kept) (ground arith) i))
      ])
    ]

abbrev nothing_put : Cleaning
nothing_put = record { out = []; colorless = 0 }

-- The state after the loop.
abbrev pub cleaning : Bytes → ℕ → Cleaning
cleaning name outlen = clean_loop outlen (skip_leading name) nothing_put

cleaning-IsCleaning : (name : Bytes) (outlen : ℕ) → IsCleaning (cleaning name outlen)
cleaning-IsCleaning name outlen =
    clean_loop-IsCleaning outlen (skip_leading name) nothing_put
      (record { short = omega arith; shown = tt; counted = λ h. omega arith })

colorless_pos :
    (w : Cleaning) → IsCleaning w → (length w.out == 0) ≡ false → (w.colorless == 0) ≡ false
colorless_pos w i h = let counted = i.counted (ground arith) in ground arith

padawan : AllKept (codes "Padawan")
padawan = omega arith

-- Into a buffer of more than 64 bytes the cleaner puts what its loop kept, or "Padawan" if that is
-- nothing: the test for a name of colour codes alone makes no difference.
pub clean_name_lem :
    (name : Bytes) (outlen : ℕ)
    → 64 < outlen
    → clean_name name outlen ≡ (
        if length (cleaning name outlen).out == 0
        then codes "Padawan"
        else (cleaning name outlen).out)
unfolding clean_name
clean_name_lem name outlen h =
    let w = cleaning name outlen in
    let i = cleaning-IsCleaning name outlen in
    elim (Bool-cases (length w.out == 0)) [
      | inl empty ↦ rw empty (
          ap (take (outlen - 1)) (take_all (outlen - 1) (codes "Padawan") (omega arith))
          ∙ take_all (outlen - 1) (codes "Padawan") (omega arith))
      | inr some_out ↦
          let coloured : (w.colorless == 0) ≡ false = colorless_pos w i some_out in
          rw (some_out, coloured) (take_all (outlen - 1) w.out (omega (arith, i.short)))
    ]

-- Into a buffer of more than 64 bytes the cleaner writes 1 to 63 bytes, none of them below the space
-- and none of the seven that break renderers and listings.
pub clean_name-AllKept :
    (name : Bytes) (outlen : ℕ)
    → 64 < outlen
    → AllKept (clean_name name outlen)
      × (0 < length (clean_name name outlen))
      × (length (clean_name name outlen) ≤ 63)
clean_name-AllKept name outlen h =
    let w = cleaning name outlen in
    let i = cleaning-IsCleaning name outlen in
    rw (clean_name_lem name outlen h) (elim (Bool-cases (length w.out == 0)) [
      | inl empty ↦ rw empty (padawan, omega arith, omega arith)
      | inr some_out ↦ rw some_out (i.shown, ground arith, i.short)
    ])

NoSlash-concat : (s : Bytes) (c : ℕ) → NoSlash s → c ≢ b'\\' → NoSlash (s ++ c ∷ [])
NoSlash-concat [] c n h = (h, tt)
NoSlash-concat (x ∷ s) c n h = (n.0, NoSlash-concat s c n.1 h)

clean_loop-NoSlash :
    (outlen : ℕ) (s : Bytes) (w : Cleaning)
    → NoSlash s
    → NoSlash w.out
    → NoSlash (clean_loop outlen s w).out
unfolding clean_loop
clean_loop-NoSlash outlen [] w n k = k
clean_loop-NoSlash outlen (c ∷ s) w n k =
    elim (Bool-cases (ltb (length w.out + 1) outlen && ltb (length w.out + 1) 64)) [
      | inr full ↦ rw full k
      | inl room ↦ rw room (elim (Bool-cases (ltb c 0x20 || is_breaking c || starts_run (c ∷ s))) [
        | inl skipped ↦ rw skipped (clean_loop-NoSlash outlen s w n.1 k)
        | inr kept ↦ rw kept (
            clean_loop-NoSlash outlen s (put_byte c w) n.1
              (unfold put_byte in NoSlash-concat w.out c k n.0))
      ])
    ]

skip_leading-NoSlash : (s : Bytes) → NoSlash s → NoSlash (skip_leading s)
unfolding skip_leading
skip_leading-NoSlash [] n = tt
skip_leading-NoSlash (c ∷ s) n = ground (arith, skip_leading-NoSlash s n.1)

-- Cleaning brings in no backslash.
pub clean_name-NoSlash :
    (name : Bytes) (outlen : ℕ) → 64 < outlen → NoSlash name → NoSlash (clean_name name outlen)
clean_name-NoSlash name outlen h n =
    rw (clean_name_lem name outlen h) (elim (Bool-cases (length (cleaning name outlen).out == 0)) [
      | inl empty ↦ rw empty (omega arith)
      | inr some_out ↦ rw some_out (
          clean_loop-NoSlash outlen (skip_leading name) nothing_put (skip_leading-NoSlash name n)
            tt)
    ])
