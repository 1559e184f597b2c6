-- ===== src/Text/Classes.antt =====
-- Classes of bytes and equality up to case, described by their codes and not by the tests of
-- proxy/proxy.c, and what those tests say of them.
use japlusproxy.Prelude.{
  ℕ, ◌+◌, ◌≤◌, ◌≡◌, ◌≢◌, ◌↔◌, ◌⊎◌, inl, inr, refl, sym, ap, ◌∙◌, and-true, Bytes, codes, Bool, true,
  false, ◌||◌, [], ◌∷◌, ◌++◌, map, arith, length, ==_iff, Bool-cases,
}
use japlusproxy.Text.{
  tail, between, all_bytes, is_word_char, is_path_char, is_token_chars, is_path_chars, fold_case,
  str_case_eq,
}
use japlusproxy.Text.Case.{NoNul, str_case_eq_iff}
use japlusproxy.Text.Paths.{is_path_chars-climbs}

abbrev pub AllOf : (ℕ → Type 0) → Bytes → Type 0
AllOf P [] = Unit
AllOf P (c ∷ s) = P c × AllOf P s

abbrev pub IsWord : ℕ → Type 0
IsWord c =
    ((b'a' ≤ c) × (c ≤ b'z'))
    ⊎ (((b'A' ≤ c) × (c ≤ b'Z')) ⊎ (((b'0' ≤ c) × (c ≤ b'9')) ⊎ ((c ≡ b'_') ⊎ (c ≡ b'-'))))

abbrev pub IsPath : ℕ → Type 0
IsPath c = IsWord c ⊎ ((c ≡ b'/') ⊎ (c ≡ b'.'))

abbrev pub IsPrintable : ℕ → Type 0
IsPrintable c = (32 ≤ c) × (c ≤ 126)

-- The same letter, or the same other byte.
abbrev pub IsAlike : ℕ → ℕ → Type 0
IsAlike x y =
    (x ≡ y) ⊎ (((b'A' ≤ x) × (x ≤ b'Z') × (y ≡ x + 32)) ⊎ ((b'A' ≤ y) × (y ≤ b'Z') × (x ≡ y + 32)))

-- The same string up to the case of its letters.
abbrev pub AreAlike : Bytes → Bytes → Type 0
AreAlike [] [] = Unit
AreAlike (x ∷ a) (y ∷ b) = IsAlike x y × AreAlike a b
AreAlike _ _ = ⊥

pub AllOf-all_bytes :
    (test : ℕ → Bool) (P : ℕ → Type 0) (s : Bytes)
    → ((c : ℕ) → test c ≡ true → P c)
    → all_bytes test s ≡ true
    → AllOf P s
unfolding all_bytes
AllOf-all_bytes test P [] each h = tt
AllOf-all_bytes test P (c ∷ s) each h =
    let (this, rest) = and-true (test c) (all_bytes test s) h in
    (each c this, AllOf-all_bytes test P s each rest)

or-true : (a b : Bool) → (a || b) ≡ true → (a ≡ true) ⊎ (b ≡ true)
or-true true b h = inl refl
or-true false b h = inr h

between-true : (lo hi c : ℕ) → between lo hi c ≡ true → (lo ≤ c) × (c ≤ hi)
between-true lo hi c h = (ground arith, ground arith)

is_word_char-IsWord : (c : ℕ) → is_word_char c ≡ true → IsWord c
is_word_char-IsWord c h = elim (or-true _ _ h) [
  | inr dash ↦ inr (inr (inr (inr ((==_iff c b'-').0 dash))))
  | inl h1 ↦ elim (or-true _ _ h1) [
    | inr line ↦ inr (inr (inr (inl ((==_iff c b'_').0 line))))
    | inl h2 ↦ elim (or-true _ _ h2) [
      | inr digit ↦ inr (inr (inl (between-true b'0' b'9' c digit)))
      | inl h3 ↦ elim (or-true _ _ h3) [
        | inl small ↦ inl (between-true b'a' b'z' c small)
        | inr large ↦ inr (inl (between-true b'A' b'Z' c large))
      ]
    ]
  ]
]

is_path_char-IsPath : (c : ℕ) → is_path_char c ≡ true → IsPath c
is_path_char-IsPath c h = elim (or-true _ _ h) [
  | inr dot ↦ inr (inr ((==_iff c b'.').0 dot))
  | inl h1 ↦ elim (or-true _ _ h1) [
    | inl word ↦ inl (is_word_char-IsWord c word)
    | inr slash ↦ inr (inl ((==_iff c b'/').0 slash))
  ]
]

pub is_token_chars-AllOf : (s : Bytes) → is_token_chars s ≡ true → AllOf IsWord s
unfolding is_token_chars
is_token_chars-AllOf s h = AllOf-all_bytes is_word_char IsWord s is_word_char-IsWord h

pub is_path_chars-AllOf :
    (s : Bytes)
    → is_path_chars s ≡ true
    → AllOf IsPath s × ((before rest : Bytes) → s ≢ before ++ codes "../" ++ rest)
is_path_chars-AllOf s h = (
  AllOf-all_bytes is_path_char IsPath s is_path_char-IsPath (is_path_chars-climbs s [] [] h).0,
  λ before rest. (is_path_chars-climbs s before rest h).1,
)

pub IsAlike-fold_case : (x y : ℕ) → IsAlike x y → fold_case x ≡ fold_case y
IsAlike-fold_case x y (inl same) = ap fold_case same
IsAlike-fold_case x y (inr (inl (lo, hi, e))) = ground (arith, e)
IsAlike-fold_case x y (inr (inr (lo, hi, e))) = ground (arith, e)

pub fold_case-IsAlike : (x y : ℕ) → fold_case x ≡ fold_case y → IsAlike x y
fold_case-IsAlike x y h = elim (Bool-cases (between b'A' b'Z' x)) [
  | inl large_x ↦ elim (Bool-cases (between b'A' b'Z' y)) [
    | inl large_y ↦ inl (let e : x + 32 ≡ y + 32 = rw (large_x, large_y) at h in omega arith)
    | inr other_y ↦
        let (lo, hi) = between-true b'A' b'Z' x large_x in
        let e : x + 32 ≡ y = rw (large_x, other_y) at h in inr (inl (lo, hi, sym e))
  ]
  | inr other_x ↦ elim (Bool-cases (between b'A' b'Z' y)) [
    | inl large_y ↦
        let (lo, hi) = between-true b'A' b'Z' y large_y in
        let e : x ≡ y + 32 = rw (other_x, large_y) at h in inr (inr (lo, hi, e))
    | inr other_y ↦ inl (rw (other_x, other_y) at h)
  ]
]

pub AreAlike-iff : (a b : Bytes) → AreAlike a b ↔ (map fold_case a ≡ map fold_case b)
AreAlike-iff [] [] = (λ _. refl, λ _. tt)
AreAlike-iff [] (y ∷ b) = (λ h. absurd h, λ h. cc)
AreAlike-iff (x ∷ a) [] = (λ h. absurd h, λ h. cc)
AreAlike-iff (x ∷ a) (y ∷ b) =
    let ih = AreAlike-iff a b in
    (
      λ h. let first = IsAlike-fold_case x y h.0 in let rest = ih.0 h.1 in cc (first, rest),
      λ h.
          let first : fold_case x ≡ fold_case y = cc in
          let rest : map fold_case a ≡ map fold_case b = cc in
          (fold_case-IsAlike x y first, ih.1 rest),
    )

NoNul-AreAlike : (a b : Bytes) → NoNul b → AreAlike a b → NoNul a
NoNul-AreAlike [] [] n h = tt
NoNul-AreAlike [] (y ∷ b) n h = tt
NoNul-AreAlike (x ∷ a) [] n h = absurd h
NoNul-AreAlike (x ∷ a) (y ∷ b) n h = (alike h.0, NoNul-AreAlike a b n.1 h.1)
  where
    alike : IsAlike x y → x ≢ 0
    alike (inl same) e = n.0 (sym same ∙ e)
    alike (inr (inl (lo, hi, _))) e = absurd (omega (arith, lo, e))
    alike (inr (inr (lo, hi, same))) e = absurd (omega (arith, same, e))

-- Only the bytes up to the count are looked at.
str_case_eq-append :
    (a b c : Bytes) → str_case_eq a (b ++ c) (length b) ≡ str_case_eq a b (length b)
unfolding str_case_eq
str_case_eq-append a [] c = refl
str_case_eq-append a (y ∷ b) c = rw (str_case_eq-append (tail a) b c) refl

-- A string that is not accepted as the first bytes of `b ++ c` differs from them.
pub str_case_eq-apart :
    (a b c : Bytes) → NoNul b → str_case_eq a (b ++ c) (length b) ≡ false → AreAlike a b → ⊥
str_case_eq-apart a b c nul h alike =
    let eq : str_case_eq a b (length b) ≡ true =
      (str_case_eq_iff a b (NoNul-AreAlike a b nul alike) nul).1 ((AreAlike-iff a b).0 alike) in
    let none_eq = str_case_eq-append a b c in cc (eq, none_eq, h)
