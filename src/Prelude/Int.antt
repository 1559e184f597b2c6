-- ===== src/Prelude/Int.antt =====
-- C's `int` on i386: integers over the native numbers, wrapped to 32 bits where the code's
-- arithmetic can leave the range, and C's division, which rounds towards zero.
use Prim.Native.Nat.{ℕ, suc, ◌+◌, ◌-◌, ◌*◌, ◌/◌, ◌%◌, ◌^◌, ◌≤◌, ◌<◌}
use mathlib.Core.Path.{◌≡◌, refl}
use mathlib.Core.Bool.{Bool}
use native.Mathlib.Omega.{arith}
use japlusproxy.Prelude.Tests.{ltb, leb, ◌==◌, if◌then◌else◌}

-- `negsuc n` is -(n + 1).
pub data ℤ : Type 0 where
  pos : ℕ → ℤ
  negsuc : ℕ → ℤ

abbrev pub pos_part : ℤ → ℕ
pos_part (pos n) = n
pos_part (negsuc n) = 0

abbrev neg_part : ℤ → ℕ
neg_part (pos n) = 0
neg_part (negsuc n) = suc n

-- a - b, as an integer.
abbrev sub_ℕ : ℕ → ℕ → ℤ
sub_ℕ a b = if leb b a then pos (a - b) else negsuc (b - a - 1)

infixl 65 ◌+ℤ◌ ◌-ℤ◌
infix 50 ◌≤ℤ◌ ◌<ℤ◌ ◌==ℤ◌
unfoldable pub ◌+ℤ◌ : ℤ → ℤ → ℤ
a +ℤ b = sub_ℕ (pos_part a + pos_part b) (neg_part a + neg_part b)

unfoldable pub ◌-ℤ◌ : ℤ → ℤ → ℤ
a -ℤ b = sub_ℕ (pos_part a + neg_part b) (neg_part a + pos_part b)

abbrev pub ◌≤ℤ◌ : ℤ → ℤ → Type 0
a ≤ℤ b = pos_part a + neg_part b ≤ pos_part b + neg_part a

abbrev pub ◌<ℤ◌ : ℤ → ℤ → Type 0
a <ℤ b = pos_part a + neg_part b < pos_part b + neg_part a

abbrev pub ltb_ℤ : ℤ → ℤ → Bool
ltb_ℤ a b = ltb (pos_part a + neg_part b) (pos_part b + neg_part a)

abbrev pub leb_ℤ : ℤ → ℤ → Bool
leb_ℤ a b = leb (pos_part a + neg_part b) (pos_part b + neg_part a)

abbrev pub ◌==ℤ◌ : ℤ → ℤ → Bool
a ==ℤ b = (pos_part a + neg_part b) == (pos_part b + neg_part a)

abbrev pub to_neg : ℕ → ℤ
to_neg n = sub_ℕ 0 n

-- k * a.
abbrev pub scale : ℕ → ℤ → ℤ
scale k (pos n) = pos (k * n)
scale k (negsuc n) = to_neg (k * suc n)

-- a / b and a % b of C: the quotient rounds towards zero and the remainder has a's sign.
abbrev pub c_div : ℤ → ℤ → ℤ
c_div (pos a) (pos b) = pos (a / b)
c_div (pos a) (negsuc b) = to_neg (a / suc b)
c_div (negsuc a) (pos b) = to_neg (suc a / b)
c_div (negsuc a) (negsuc b) = pos (suc a / suc b)

abbrev pub c_mod : ℤ → ℤ → ℤ
c_mod (pos a) (pos b) = pos (a % b)
c_mod (pos a) (negsuc b) = pos (a % suc b)
c_mod (negsuc a) (pos b) = to_neg (suc a % b)
c_mod (negsuc a) (negsuc b) = to_neg (suc a % suc b)

abbrev wrap_pos : ℕ → ℤ
wrap_pos r = if ltb r (2 ^ 31) then pos r else negsuc (2 ^ 32 - 1 - r)

abbrev wrap_neg : ℕ → ℤ
wrap_neg r = if ltb r (2 ^ 31) then negsuc r else pos (2 ^ 32 - 1 - r)

-- The 32-bit two's complement value of an integer.
unfoldable pub wrap32 : ℤ → ℤ
wrap32 (pos n) = wrap_pos (n % 2 ^ 32)
wrap32 (negsuc n) = wrap_neg (n % 2 ^ 32)

-- Inside the range nothing wraps.
pub wrap32-pos : (n : ℕ) → n < 2 ^ 31 → wrap32 (pos n) ≡ pos n
unfolding wrap32
wrap32-pos n h = ground arith

pub +ℤ-pos : (a b : ℕ) → pos a +ℤ pos b ≡ pos (a + b)
unfolding ◌+ℤ◌
+ℤ-pos a b = ground arith

pub -ℤ-pos : (a b : ℕ) → b ≤ a → pos a -ℤ pos b ≡ pos (a - b)
unfolding ◌-ℤ◌
-ℤ-pos a b h = ground arith

wraps_around : wrap32 (pos (2 ^ 31)) ≡ negsuc (2 ^ 31 - 1)
unfolding wrap32
wraps_around = refl
