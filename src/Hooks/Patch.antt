-- ===== src/Hooks/Patch.antt =====
-- MakeWritable and PatchBytes of proxy/patch.c, and the platform that the hooks stand on.
pub mod Pages
use japlusproxy.Prelude.{
  ℕ, ◌+◌, ◌-◌, ◌*◌, ◌/◌, ◌%◌, ◌≤◌, ◌<◌, ◌≡◌, Bytes, Bool, true, false, not, ◌||◌, Option, none,
  some, arith, length, ltb, ◌==◌, if◌then◌else◌,
}
use japlusproxy.Prelude.Int.{ℤ, pos, negsuc}
use japlusproxy.Memory.{Memory, write, add32, sub32}

-- An answer of hde32_disasm: the length of the instruction, and F_ERROR among the flags.
pub record Decoded : Type 0 where
  pub len : ℕ
  pub error : Bool

-- The system calls and the decoder that the hooks call. An answer of mmap depends on how many
-- mappings were asked for before, and on the size; none is MAP_FAILED.
pub record Platform : Type 0 where
  pub page_size : ℤ
  pub protect : ℕ → ℕ → Bool
  pub map : ℕ → ℕ → Option ℕ
  pub decode : Memory → ℕ → Decoded

abbrev pub page_of : ℤ → ℕ
page_of (pos n) = if n == 0 then 4096 else n
page_of (negsuc n) = 4096

-- `x & ~(ps - 1)`; the size of a page is a power of two.
abbrev pub align_down : ℕ → ℕ → ℕ
align_down x ps = x / ps * ps

-- mprotect of the pages from the first to the last byte; whether it answers 0.
unfoldable pub make_writable : Platform → ℕ → ℕ → Bool
make_writable p addr len =
    let ps = page_of p.page_size in
    let start = align_down addr ps in
    let end = align_down (add32 (addr + len) (ps - 1)) ps in p.protect start (sub32 end start)

-- The memory after it, and whether it returns 0. `src` is no null pointer; its length is `len`.
unfoldable pub patch_bytes : Platform → Memory → ℕ → Bytes → Memory × Bool
patch_bytes p mem dst src =
    if dst == 0 || length src == 0
    then (mem, false)
    else if not (make_writable p dst (length src))
    then (mem, false)
    else (write mem dst src, true)
