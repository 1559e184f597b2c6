-- ===== src/Memory/Laws.antt =====
-- What is read after a write.
use japlusproxy.Prelude.{
  ℕ, zero, suc, ◌+◌, ◌-◌, ◌/◌, ◌%◌, ◌^◌, ◌≤◌, ◌<◌, ◌≡◌, ◌⊎◌, inl, inr, refl, Bytes, [], ◌∷◌, ◌++◌,
  arith, length, get_or, ap, ◌∙◌,
}
use japlusproxy.Memory.{Memory, read, write, word_at, le32}

-- An address that a block does not hold.
abbrev pub Outside : ℕ → ℕ → ℕ → Type 0
Outside a n x = (x < a) ⊎ (a + n ≤ x)

pub write_elsewhere :
    (mem : Memory) (a : ℕ) (bytes : Bytes) (x : ℕ)
    → Outside a (length bytes) x
    → write mem a bytes x ≡ mem x
unfolding write
write_elsewhere mem a bytes x (inl h) = ground arith
write_elsewhere mem a bytes x (inr h) = ground arith

pub write_at :
    (mem : Memory) (a : ℕ) (bytes : Bytes) (x i : ℕ)
    → x ≡ a + i
    → i < length bytes
    → write mem a bytes x ≡ get_or bytes i 0
unfolding write
write_at mem a bytes x i e h =
    let same : x - a ≡ i = omega arith in ground (arith, ap (λ (k : ℕ). get_or bytes k 0) same)

pub length-read : (mem : Memory) (a n : ℕ) → length (read mem a n) ≡ n
length-read mem a zero = refl
length-read mem a (suc n) = omega (arith, length-read mem (a + 1) n)

pub get_or-read : (mem : Memory) (a n i d : ℕ) → i < n → get_or (read mem a n) i d ≡ mem (a + i)
get_or-read mem a zero i d h = absurd (omega arith)
get_or-read mem a (suc n) zero d h = ap mem (omega arith)
get_or-read mem a (suc n) (suc i) d h =
    let moved : a + 1 + i ≡ a + suc i = omega arith in
    rw (get_or-read mem (a + 1) n i d (omega arith)) (ap mem moved)

-- Reading depends on the bytes of the block alone.
pub read_cong :
    (mem mem' : Memory) (a n : ℕ)
    → ((x : ℕ) → a ≤ x → x < a + n → mem x ≡ mem' x)
    → read mem a n ≡ read mem' a n
read_cong mem mem' a zero h = refl
read_cong mem mem' a (suc n) h = cc (
  h a (omega arith) (omega arith),
  read_cong mem mem' (a + 1) n (λ x lo hi. h x (omega arith) (omega arith)),
)

-- A block that was written reads back.
pub read-write_all :
    (mem : Memory) (a : ℕ) (bytes : Bytes) → read (write mem a bytes) a (length bytes) ≡ bytes
read-write_all mem a bytes =
    back bytes 0 a (omega arith) (λ k h. ap (λ (j : ℕ). get_or bytes j 0) (omega arith))
      (omega arith)
  where
    back :
        (rest : Bytes) (i x : ℕ)
        → x ≡ a + i
        → ((k : ℕ) → k < length rest → get_or bytes (i + k) 0 ≡ get_or rest k 0)
        → i + length rest ≡ length bytes
        → read (write mem a bytes) x (length rest) ≡ rest
    back [] i x e h l = refl
    back (b ∷ rest) i x e h l = cc (
      write_at mem a bytes x i e (omega arith),
      ap (λ (k : ℕ). get_or bytes k 0) (let same : i ≡ i + 0 = omega arith in same),
      h 0 (omega arith),
      back rest (i + 1) (x + 1) (omega arith)
          (λ k lt.
            ap (λ (j : ℕ). get_or bytes j 0)
              (let same : i + 1 + k ≡ i + suc k = omega arith in same)
            ∙ h (suc k) (omega arith))
          (omega arith),
    )

pub word_at_lem :
    (mem : Memory) (a w : ℕ)
    → w < 2 ^ 32
    → mem a ≡ w % 256
    → mem (a + 1) ≡ w / 256 % 256
    → mem (a + 2) ≡ w / 65536 % 256
    → mem (a + 3) ≡ w / 16777216 % 256
    → word_at mem a ≡ w
word_at_lem mem a w small b0 b1 b2 b3 = omega (arith, b0, b1, b2, b3)

-- The operand of an instruction of one byte and a word.
pub word_at-write :
    (mem : Memory) (a b w : ℕ) (rest : Bytes)
    → w < 2 ^ 32
    → word_at (write mem a (b ∷ le32 w ++ rest)) (a + 1) ≡ w
word_at-write mem a b w rest small =
    word_at_lem (write mem a (b ∷ le32 w ++ rest)) (a + 1) w small
      (write_at mem a (b ∷ le32 w ++ rest) (a + 1) 1 (omega arith) (omega arith))
      (write_at mem a (b ∷ le32 w ++ rest) (a + 1 + 1) 2 (omega arith) (omega arith))
      (write_at mem a (b ∷ le32 w ++ rest) (a + 1 + 2) 3 (omega arith) (omega arith))
      (write_at mem a (b ∷ le32 w ++ rest) (a + 1 + 3) 4 (omega arith) (omega arith))
