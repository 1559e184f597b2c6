-- ===== src/Throttle/Crowd/Few.antt =====
-- Where few addresses send at all, few have sent of late.
use japlusproxy.Prelude.{
  ℕ, ◌+◌, ◌≤◌, ◌≡◌, inl, inr, refl, true, false, List, [], ◌∷◌, arith, length, ltb, ◌==◌, ==_iff,
  Bool-cases, if◌then◌else◌,
}
use japlusproxy.Throttle.Crowd.{Listed, AllListed}
use japlusproxy.Throttle.Crowd.Recent.{
  has, insert, Listed-has, Past, Tried, recent_of, IsCalm, remove, length-remove, Listed-remove,
}

NoTwice : List ℕ → Type 0
NoTwice [] = Unit
NoTwice (x ∷ xs) = (has x xs ≡ false) × NoTwice xs

-- A list without repetitions is not longer than one that has all that is on it.
length-NoTwice :
    (xs senders : List ℕ)
    → NoTwice xs
    → ((a : ℕ) → Listed a xs → Listed a senders)
    → length xs ≤ length senders
unfolding NoTwice
length-NoTwice [] senders once all = omega arith
length-NoTwice (x ∷ xs) senders once all =
    let rest = length-NoTwice xs (remove x senders) once.1 (λ a l. elim (Bool-cases (x == a)) [
      | inl same ↦
          let there : Listed x xs = rw ((==_iff x a).0 same) l in
          let twice : has x xs ≡ true = Listed-has x xs there in cc (once.0, twice)
      | inr other ↦ Listed-remove x a senders other (all a (inr l))
    ]) in
    omega (arith, length-remove x senders (all x (inl refl)), rest)

insert-NoTwice : (a : ℕ) (xs : List ℕ) → NoTwice xs → NoTwice (insert a xs)
unfolding NoTwice
insert-NoTwice a xs once = elim (Bool-cases (has a xs)) [
  | inl there ↦ rw there once
  | inr new ↦ rw new (new, once)
]

Listed-insert :
    (a b : ℕ) (xs senders : List ℕ)
    → Listed a senders
    → (Listed b xs → Listed b senders)
    → Listed b (insert a xs)
    → Listed b senders
Listed-insert a b xs senders known all l = elim (Bool-cases (has a xs)) [
  | inl there ↦ all (rw there at l)
  | inr new ↦ elim (rw new at l) [ inl here ↦ rw here at known | inr later ↦ all later ]
]

recent_of-NoTwice : (span at : ℕ) (past : Past) → NoTwice (recent_of span at past)
unfolding NoTwice
recent_of-NoTwice span at [] = tt
recent_of-NoTwice span at ((a, t) ∷ past) =
    let rest = recent_of-NoTwice span at past in
    elim (Bool-cases (ltb at (t + span))) [
      | inl young ↦ rw young (insert-NoTwice a (recent_of span at past) rest)
      | inr old ↦ rw old rest
    ]

module _ (senders : List ℕ) where
  Known : Past → Type 0
  Known past = (a t : ℕ) → Tried a t past → Listed a senders

  Known-recent_of :
      (span at : ℕ) (past : Past)
      → Known past
      → (b : ℕ) → Listed b (recent_of span at past)
      → Listed b senders
  unfolding Known
  Known-recent_of span at [] k b l = absurd l
  Known-recent_of span at ((a, t) ∷ past) k b l =
      let rest = Known-recent_of span at past (λ c u h. k c u (inr h)) b in
      elim (Bool-cases (ltb at (t + span))) [
        | inl young ↦
            Listed-insert a b (recent_of span at past) senders (k a t (inl (refl, refl))) rest
              (rw young at l)
        | inr old ↦ rest (rw old at l)
      ]

  module _ {ℓ} {A : Type ℓ} (address time : A → ℕ) (exempt n span : ℕ)
      (few : length senders ≤ n) where
    Known-few :
        (a at : ℕ) (past : Past)
        → Known past
        → Listed a senders
        → length (insert a (recent_of span at past)) ≤ n
    Known-few a at past k l =
        let recent = recent_of span at past in
        let fits =
          length-NoTwice (insert a recent) senders
            (insert-NoTwice a recent (recent_of-NoTwice span at past))
            (λ b. Listed-insert a b recent senders l (Known-recent_of span at past k b)) in
        omega (arith, fits, few)

    Known-IsCalm :
        (past : Past) (xs : List A)
        → Known past
        → AllListed address exempt senders xs
        → IsCalm address time exempt n span past xs
    unfolding Known
    Known-IsCalm past [] k h = tt
    Known-IsCalm past (x ∷ xs) k h = (
      λ outside. Known-few (address x) (time x) past k (h.0 outside),
      Known-IsCalm (if address x == exempt then past else (address x, time x) ∷ past) xs
          (elim (Bool-cases (address x == exempt)) [
            | inl local ↦ rw local k
            | inr far ↦ rw far (λ b u. next far b u)
          ])
          h.1,
    )
      where
        next :
            (address x == exempt) ≡ false
            → (b u : ℕ) → Tried b u ((address x, time x) ∷ past)
            → Listed b senders
        next far b u (inl (same, _)) = rw same at (h.0 (λ e. cc (far, (==_iff _ _).1 e)))
        next far b u (inr earlier) = k b u earlier

    pub AllListed-IsCalm :
        (xs : List A)
        → AllListed address exempt senders xs
        → IsCalm address time exempt n span [] xs
    unfolding Known
    AllListed-IsCalm xs h = Known-IsCalm [] xs (λ _ _ never. absurd never) h
