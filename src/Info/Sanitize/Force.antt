-- ===== src/Info/Sanitize/Force.antt =====
-- The force powers that SanitizeUserinfo of proxy/proxy.c accepts: rank, side and powers, as in
-- 7-1-030000000000003332.
use japlusproxy.Prelude.{
  ℕ, ◌+◌, ◌≤◌, ◌<◌, ◌≡◌, ◌≢◌, ◌↔◌, refl, ap, ◌∙◌, inl, inr, Bytes, true, false, Option, none, some,
  [], ◌∷◌, ◌++◌, arith, length, ◌==◌, Bool-cases,
}
use japlusproxy.Info.Sanitize.{force_byte, force_loop, two_seps, is_bad_force}

abbrev pub AllDigits : Bytes → Type 0
AllDigits [] = Unit
AllDigits (c ∷ s) = ((b'0' ≤ c) × (c ≤ b'9')) × AllDigits s

-- Three numbers with dashes between; the second dash stands at index 5 at most.
pub record IsForce (v : Bytes) : Type 0 where
  pub rank : Bytes
  pub side : Bytes
  pub powers : Bytes
  pub whole : v ≡ rank ++ b'-' ∷ (side ++ b'-' ∷ powers)
  pub rank_digits : AllDigits rank
  pub side_digits : AllDigits side
  pub powers_digits : AllDigits powers
  pub some_rank : 0 < length rank
  pub some_side : 0 < length side
  pub early : length rank + 1 + length side ≤ 5
  pub lower : 22 ≤ length v
  pub upper : length v ≤ 24

-- One byte of the loop.
digit_step :
    (i before c : ℕ) (s : Bytes) (k : ℕ)
    → b'0' ≤ c
    → c ≤ b'9'
    → force_loop i before (c ∷ s) k ≡ force_loop (i + 1) c s k
unfolding force_loop force_byte
digit_step i before c s k lo hi = ground arith

dash_step :
    (i before : ℕ) (s : Bytes) (k : ℕ)
    → 1 ≤ i
    → i ≤ 5
    → before ≢ b'-'
    → force_loop i before (b'-' ∷ s) k ≡ force_loop (i + 1) b'-' s (k + 1)
unfolding force_loop force_byte
dash_step i before s k lo hi ne = ground arith

-- What a byte was, if the loop gets past it.
data Seen (i before c : ℕ) (s : Bytes) (k n : ℕ) : Type 0 where
  digit : b'0' ≤ c → c ≤ b'9' → force_loop (i + 1) c s k ≡ some n → Seen i before c s k n
  dash :
      c ≡ b'-'
      → 1 ≤ i
      → i ≤ 5
      → before ≢ b'-'
      → force_loop (i + 1) b'-' s (k + 1) ≡ some n
      → Seen i before c s k n

see :
    (i before c : ℕ) (s : Bytes) (k n : ℕ)
    → force_loop i before (c ∷ s) k ≡ some n
    → Seen i before c s k n
unfolding force_loop force_byte
see i before c s k n h = elim (Bool-cases (c == b'-')) [
  | inl e ↦
      let is_dash : c ≡ b'-' = ground arith in
      dash is_dash (ground arith) (ground arith) (ground arith) (ground arith)
  | inr e ↦ digit (ground arith) (ground arith) (ground arith)
]

counts_up : (i before : ℕ) (s : Bytes) (k n : ℕ) → force_loop i before s k ≡ some n → k ≤ n
counts_up i before [] k n h = unfold force_loop in ground arith
counts_up i before (c ∷ s) k n h = elim (see i before c s k n h) [
  | digit lo hi more ↦ counts_up (i + 1) c s k n more
  | dash e lo hi ne more ↦ omega (arith, counts_up (i + 1) b'-' s (k + 1) n more)
]

-- Once all the dashes are counted, only digits are left.
digits_end : (i before : ℕ) (s : Bytes) (k : ℕ) → force_loop i before s k ≡ some k → AllDigits s
digits_end i before [] k h = tt
digits_end i before (c ∷ s) k h = elim (see i before c s k k h) [
  | digit lo hi more ↦ ((lo, hi), digits_end (i + 1) c s k more)
  | dash e lo hi ne more ↦ absurd (omega (arith, counts_up (i + 1) b'-' s (k + 1) k more))
]

-- A string up to the next dash, and the loop behind it.
record Split (i before : ℕ) (s : Bytes) (k n : ℕ) : Type 0 where
  part : Bytes
  rest : Bytes
  whole : s ≡ part ++ b'-' ∷ rest
  digits : AllDigits part
  lower : 1 ≤ i + length part
  upper : i + length part ≤ 5
  apart : before ≡ b'-' → 0 < length part
  more : force_loop (i + length part + 1) b'-' rest (k + 1) ≡ some n

next_dash :
    (i before : ℕ) (s : Bytes) (k n : ℕ)
    → force_loop i before s k ≡ some n
    → k < n
    → Split i before s k n
next_dash i before [] k n h few = absurd (unfold force_loop in ground arith)
next_dash i before (c ∷ s) k n h few = elim (see i before c s k n h) [
  | digit lo hi more ↦
      let r = next_dash (i + 1) c s k n more few in
      let same : i + 1 + length r.part ≡ i + length (c ∷ r.part) = omega arith in
      record {
        part = c ∷ r.part;
        rest = r.rest;
        whole = ap (c ∷◌) r.whole;
        digits = ((lo, hi), r.digits);
        lower = omega (arith, r.lower);
        upper = omega (arith, r.upper);
        apart = λ e. omega arith;
        more = rw same at r.more;
      }
  | dash e lo hi ne more ↦ record {
    part = [];
    rest = s;
    whole = ap (λ x. x ∷ s) e;
    digits = tt;
    lower = omega arith;
    upper = omega arith;
    apart = λ d. absurd (ne d);
    more = let same : i ≡ i + 0 = omega arith in rw same at more;
  }
]

-- The loop goes through digits, and past the dash behind them.
goes_through :
    (i before : ℕ) (part : Bytes) (rest : Bytes) (k : ℕ)
    → AllDigits part
    → 1 ≤ i + length part
    → i + length part ≤ 5
    → (before ≡ b'-' → 0 < length part)
    → force_loop i before (part ++ b'-' ∷ rest) k
      ≡ force_loop (i + length part + 1) b'-' rest (k + 1)
goes_through i before [] rest k d lo hi apart =
    dash_step i before rest k (omega arith) (omega arith) (λ e. omega (arith, apart e))
    ∙ ap (λ j. force_loop (j + 1) b'-' rest (k + 1)) (let same : i ≡ i + 0 = omega arith in same)
goes_through i before (c ∷ part) rest k (d, ds) lo hi apart =
    digit_step i before c (part ++ b'-' ∷ rest) k d.0 d.1
    ∙ goes_through (i + 1) c part rest k ds (omega arith) (omega arith) (λ e. absurd (omega arith))
    ∙ ap (λ j. force_loop (j + 1) b'-' rest (k + 1))
        (let same : i + 1 + length part ≡ i + length (c ∷ part) = omega arith in same)

goes_to_end : (i before : ℕ) (s : Bytes) (k : ℕ) → AllDigits s → force_loop i before s k ≡ some k
goes_to_end i before [] k d = unfold force_loop in refl
goes_to_end i before (c ∷ s) k (d, ds) =
    digit_step i before c s k d.0 d.1 ∙ goes_to_end (i + 1) c s k ds

two_seps_iff : (o : Option ℕ) → (two_seps o ≡ true) ↔ (o ≡ some 2)
two_seps_iff none = (λ h. cc, λ h. cc)
two_seps_iff (some n) = (λ h. ap some (ground arith), λ h. ground arith)

test_iff :
    (v : Bytes)
    → (is_bad_force v ≡ false) ↔ ((22 ≤ length v) × (length v ≤ 24) × (force_loop 0 0 v 0 ≡ some 2))
unfolding is_bad_force
test_iff v = (
  λ h. (ground arith, ground arith, (two_seps_iff (force_loop 0 0 v 0)).0 (ground arith)),
  λ h. let ok = (two_seps_iff (force_loop 0 0 v 0)).1 h.2 in ground arith,
)

-- The force powers that are kept are exactly three numbers with dashes between, of 22 to 24 bytes
-- in all, with a rank and a side, and the second dash at index 5 at most.
pub is_bad_force_iff : (v : Bytes) → (is_bad_force v ≡ false) ↔ IsForce v
is_bad_force_iff v = (keeps, kept)
  where
    keeps : is_bad_force v ≡ false → IsForce v
    keeps h =
        let t = (test_iff v).0 h in
        let first = next_dash 0 0 v 0 2 t.2 (omega arith) in
        let second = next_dash _ _ first.rest 1 2 first.more (omega arith) in
        record {
          rank = first.part;
          side = second.part;
          powers = second.rest;
          whole = first.whole ∙ ap (λ x. first.part ++ b'-' ∷ x) second.whole;
          rank_digits = first.digits;
          side_digits = second.digits;
          powers_digits = digits_end _ _ second.rest 2 second.more;
          some_rank = omega (arith, first.lower);
          some_side = second.apart refl;
          early = omega (arith, second.upper);
          lower = t.0;
          upper = t.1;
        }

    kept : IsForce v → is_bad_force v ≡ false
    kept f = (test_iff v).1 (
      f.lower,
      f.upper,
      rw f.whole (
          goes_through 0 0 f.rank (f.side ++ b'-' ∷ f.powers) 0 f.rank_digits
            (omega (arith, f.some_rank)) (omega (arith, f.early)) (λ e. absurd (omega arith))
          ∙ goes_through (0 + length f.rank + 1) b'-' f.side f.powers 1 f.side_digits (omega arith)
              (omega (arith, f.early)) (λ e. f.some_side)
          ∙ goes_to_end _ b'-' f.powers 2 f.powers_digits),
    )
