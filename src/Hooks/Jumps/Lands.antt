-- ===== src/Hooks/Jumps/Lands.antt =====
-- Where control goes from the code that the hooks write, as i386 reads it.
use japlusproxy.Prelude.{
  ℕ, ◌+◌, ◌^◌, ◌<◌, ◌≡◌, refl, ap, Bytes, ◌&&◌, Option, none, some, [], ◌∷◌, ◌++◌, arith, length,
  get_or, ◌==◌, if◌then◌else◌,
}
use japlusproxy.Memory.{Memory, word_at, le32, add32, sub32}
use japlusproxy.Memory.Laws.{word_at_lem}
use japlusproxy.Hooks.Jumps.{jump_rel, push_ret, move_jump}

-- Where the processor goes on from a jump: the three that the hooks use.
unfoldable pub lands : Memory → ℕ → Option ℕ
lands mem a =
    if mem a == 0xE9
    then some (add32 (a + 5) (word_at mem (a + 1)))
    else if mem a == 0x68 && mem (a + 5) == 0xC3
    then some (word_at mem (a + 1))
    else if mem a == 0xB8 && mem (a + 5) == 0xFF && mem (a + 6) == 0xE0
    then some (word_at mem (a + 1))
    else none

-- The bytes stand at the address.
abbrev pub Stands : Memory → ℕ → Bytes → Type 0
Stands mem a bytes = (x i : ℕ) → x ≡ a + i → i < length bytes → mem x ≡ get_or bytes i 0

pub sub32-lt : (a b : ℕ) → sub32 a b < 2 ^ 32
sub32-lt a b = omega arith

add32-sub32 : (a b : ℕ) → b < 2 ^ 32 → add32 a (sub32 b a) ≡ b
add32-sub32 a b h = omega arith

operand :
    (mem : Memory) (a b w : ℕ) (rest : Bytes)
    → w < 2 ^ 32
    → Stands mem a (b ∷ le32 w ++ rest)
    → word_at mem (a + 1) ≡ w
operand mem a b w rest small s =
    word_at_lem mem (a + 1) w small (s (a + 1) 1 (omega arith) (omega arith))
      (s (a + 1 + 1) 2 (omega arith) (omega arith)) (s (a + 1 + 2) 3 (omega arith) (omega arith))
      (s (a + 1 + 3) 4 (omega arith) (omega arith))

pub lands-jump_rel :
    (mem : Memory) (a b : ℕ) → b < 2 ^ 32 → Stands mem a (jump_rel a b) → lands mem a ≡ some b
unfolding lands
lands-jump_rel mem a b small s =
    let first = s a 0 (omega arith) (omega arith) in
    let word = operand mem a 0xE9 (sub32 b (a + 5)) [] (sub32-lt b (a + 5)) s in
    rw (first, word) (ap some (add32-sub32 (a + 5) b small))

pub lands-push_ret :
    (mem : Memory) (a b : ℕ) → b < 2 ^ 32 → Stands mem a (push_ret b) → lands mem a ≡ some b
unfolding lands
lands-push_ret mem a b small s =
    let first = s a 0 (omega arith) (omega arith) in
    let last = s (a + 5) 5 (omega arith) (omega arith) in
    let word = operand mem a 0x68 b (0xC3 ∷ []) small s in rw (first, last, word) refl

pub lands-move_jump :
    (mem : Memory) (a b : ℕ) → b < 2 ^ 32 → Stands mem a (move_jump b) → lands mem a ≡ some b
unfolding lands
lands-move_jump mem a b small s =
    let first = s a 0 (omega arith) (omega arith) in
    let fifth = s (a + 5) 5 (omega arith) (omega arith) in
    let sixth = s (a + 6) 6 (omega arith) (omega arith) in
    let word = operand mem a 0xB8 b (0xFF ∷ 0xE0 ∷ []) small s in
    rw (first, fifth, sixth, word) refl
