-- ===== src/Hooks/Patch/Pages.antt =====
-- Which pages MakeWritable opens.
use japlusproxy.Prelude.{ℕ, ◌+◌, ◌-◌, ◌%◌, ◌^◌, ◌≤◌, ◌<◌, ◌≡◌, ap, ◌∙◌, true, arith}
use japlusproxy.Prelude.Int.{ℤ, pos, negsuc}
use japlusproxy.Memory.{add32, sub32}
use japlusproxy.Hooks.Patch.{Platform, page_of, align_down, make_writable}

-- mprotect answers 0.
abbrev pub AllWritable : Platform → Type 0
AllWritable p = (start size : ℕ) → p.protect start size ≡ true

pub make_writable_lem : (p : Platform) → AllWritable p → (a n : ℕ) → make_writable p a n ≡ true
unfolding make_writable
make_writable_lem p writable a n = writable _ _

page_of_pos : (size : ℤ) → 0 < page_of size
page_of_pos (pos n) = ground arith
page_of_pos (negsuc n) = omega arith

align_down_bounds : (x ps : ℕ) → 0 < ps → (align_down x ps ≤ x) × (x < align_down x ps + ps)
align_down_bounds x ps h = (grind arith, grind arith)

align_down_aligned : (x ps : ℕ) → 0 < ps → align_down x ps % ps ≡ 0
align_down_aligned x ps h = grind arith

-- The block that mprotect gets, by its answer: whole pages from the one of the first byte to the one
-- of the last.
pub record Opens (p : Platform) (addr len start size : ℕ) : Type 0 where
  pub asks : make_writable p addr len ≡ p.protect start size
  pub from_page : start % page_of p.page_size ≡ 0
  pub starts : start ≤ addr
  pub ends : addr + len ≤ start + size
  pub near : start + size < addr + len + page_of p.page_size

-- MakeWritable asks for the pages that hold the block, the first from its start on, and for less than
-- a page behind it, whatever the size of a page is and also where it cannot be read, if the pages
-- end within 32 bits.
make_writable-Opens :
    (p : Platform) (addr len : ℕ)
    → addr + len + page_of p.page_size ≤ 2 ^ 32
    → (start : ℕ) × (size : ℕ) × Opens p addr len start size
unfolding make_writable
make_writable-Opens p addr len room =
    let ps = page_of p.page_size in
    let some_page = page_of_pos p.page_size in
    let first = align_down_bounds addr ps some_page in
    let sum : add32 (addr + len) (ps - 1) ≡ addr + len + (ps - 1) = omega (arith, some_page) in
    let last = align_down_bounds (addr + len + (ps - 1)) ps some_page in
    let end = align_down (addr + len + (ps - 1)) ps in
    let gap : sub32 end (align_down addr ps) ≡ end - align_down addr ps =
      omega (arith, first, last, some_page) in
    (
      align_down addr ps,
      end - align_down addr ps,
      record {
        asks =
            ap (λ e. p.protect (align_down addr ps) (sub32 (align_down e ps) (align_down addr ps)))
              sum
            ∙ ap (p.protect (align_down addr ps)) gap;
        from_page = align_down_aligned addr ps some_page;
        starts = first.0;
        ends = omega (arith, first, last, some_page);
        near = omega (arith, first, last, some_page);
      },
    )
