-- ===== src/Memory.antt =====
-- The memory that proxy/patch.c reads and writes: a byte at each address of i386. Pointers are
-- numbers, the null pointer is 0, and a sum that a jump makes wraps at 32 bits.
pub mod Laws
use japlusproxy.Prelude.{
  ℕ, zero, suc, ◌+◌, ◌-◌, ◌*◌, ◌/◌, ◌%◌, ◌^◌, ◌≡◌, Bytes, Bool, ◌&&◌, [], ◌∷◌, length, get_or, leb,
  ltb, if◌then◌else◌,
}

abbrev pub Memory : Type 0
Memory = ℕ → ℕ

-- memcpy from memory: `n` bytes from `a` on.
abbrev pub read : Memory → ℕ → ℕ → Bytes
read mem a zero = []
read mem a (suc n) = mem a ∷ read mem (a + 1) n

-- memcpy into memory: the bytes from `a` on.
unfoldable pub write : Memory → ℕ → Bytes → Memory
write mem a bytes x = if leb a x && ltb x (a + length bytes) then get_or bytes (x - a) 0 else mem x

-- The little-endian word that memcpy of four bytes reads.
abbrev pub word_at : Memory → ℕ → ℕ
word_at mem a = mem a + 256 * mem (a + 1) + 65536 * mem (a + 2) + 16777216 * mem (a + 3)

-- The bytes of a word, as memcpy of four bytes stores it.
abbrev pub le32 : ℕ → Bytes
le32 w = w % 256 ∷ w / 256 % 256 ∷ w / 65536 % 256 ∷ w / 16777216 % 256 ∷ []

-- a + b and a - b on pointers and `intptr_t`, as bit patterns.
abbrev pub add32 : ℕ → ℕ → ℕ
add32 a b = (a + b) % 2 ^ 32

abbrev pub sub32 : ℕ → ℕ → ℕ
sub32 a b = (a % 2 ^ 32 + 2 ^ 32 - b % 2 ^ 32) % 2 ^ 32
