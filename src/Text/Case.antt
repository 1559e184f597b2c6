-- ===== src/Text/Case.antt =====
-- The comparisons that ignore case, against the equality of the folded strings.
use japlusproxy.Prelude.{
  ℕ, zero, suc, ◌<◌, ◌≡◌, ◌≢◌, ◌↔◌, refl, Bytes, Bool, true, false, not, [], ◌∷◌, map, arith,
  length, take, get_or, ◌==◌, ==_iff, Bool-cases, inl, inr, if◌then◌else◌,
}
use japlusproxy.Text.{tail, fold_case, str_case_prefix, str_case_eq}

-- A C string has no NUL inside.
abbrev pub NoNul : Bytes → Type 0
NoNul [] = Unit
NoNul (c ∷ s) = (c ≢ 0) × NoNul s

fold_case-ne-zero : (c : ℕ) → c ≢ 0 → fold_case c ≢ 0
fold_case-ne-zero c h = ground arith

-- One round of a comparison: the tests of the loop, before the rest `r` of it.
abbrev round : ℕ → ℕ → Bool → Bool
round x y r = if not (x == y) then false else if x == 0 then true else r

round_iff :
    (x y : ℕ) (r : Bool) (xs ys : Bytes)
    → x ≢ 0
    → (r ≡ true) ↔ (xs ≡ ys)
    → (round x y r ≡ true) ↔ (x ∷ xs ≡ y ∷ ys)
round_iff x y r xs ys nx ih = elim (Bool-cases (x == y)) [
  | inl same ↦
      let e = (==_iff x y).0 same in
      (λ h. cc (e, ih.0 (ground arith)), λ h. let t = ih.1 (cc) in ground arith)
  | inr ne ↦ (λ h. absurd (ground arith), λ h. absurd (let e : x ≡ y = cc in ground arith))
]

round-false : (x y : ℕ) (r : Bool) → x ≢ 0 → r ≡ false → round x y r ≡ false
round-false x y r nx h = ground arith

-- With the length of `b` for the count, the strings are equal up to case, and only then.
pub str_case_eq_iff :
    (a b : Bytes)
    → NoNul a
    → NoNul b
    → (str_case_eq a b (length b) ≡ true) ↔ (map fold_case a ≡ map fold_case b)
unfolding str_case_eq
str_case_eq_iff [] [] na nb = (λ h. refl, λ h. refl)
str_case_eq_iff (x ∷ a) [] na nb = (λ h. absurd (ground arith), λ h. cc)
str_case_eq_iff [] (y ∷ b) na nb = (λ h. absurd (ground (arith, fold_case-ne-zero y nb.0)), λ h. cc)
str_case_eq_iff (x ∷ a) (y ∷ b) na nb =
    round_iff (fold_case x) (fold_case y) (str_case_eq a b (length b)) (map fold_case a)
      (map fold_case b) (fold_case-ne-zero x na.0) (str_case_eq_iff a b na.1 nb.1)

-- A string longer than the count equals nothing.
pub str_case_eq_long : (a b : Bytes) (n : ℕ) → NoNul a → n < length a → str_case_eq a b n ≡ false
unfolding str_case_eq
str_case_eq_long [] b n na h = absurd (omega arith)
str_case_eq_long (x ∷ a) b zero na h = ground arith
str_case_eq_long (x ∷ a) b (suc n) na h =
    round-false (fold_case x) (fold_case (get_or b 0 0)) (str_case_eq a (tail b) n)
      (fold_case-ne-zero x na.0) (str_case_eq_long a (tail b) n na.1 (omega arith))

-- With the length of `prefix` for the count, `s` begins with `prefix` up to case, and only then.
pub str_case_prefix_iff :
    (s prefix : Bytes)
    → NoNul s
    → NoNul prefix
    → (str_case_prefix s prefix (length prefix) ≡ true)
      ↔ (map fold_case (take (length prefix) s) ≡ map fold_case prefix)
unfolding str_case_prefix
str_case_prefix_iff s [] ns np = (λ h. refl, λ h. refl)
str_case_prefix_iff [] (y ∷ p) ns np =
    (λ h. absurd (ground (arith, fold_case-ne-zero y np.0)), λ h. cc)
str_case_prefix_iff (x ∷ s) (y ∷ p) ns np =
    round_iff (fold_case x) (fold_case y) (str_case_prefix s p (length p))
      (map fold_case (take (length p) s)) (map fold_case p) (fold_case-ne-zero x ns.0)
      (str_case_prefix_iff s p ns.1 np.1)
