-- ===== src/Throttle/Crowd.antt =====
-- Runs of packets, whose addresses and times are given by two functions, and the few senders that
-- they come from.
pub mod Recent
pub mod Few
use japlusproxy.Prelude.{
  ℕ, ◌≡◌, ◌≢◌, refl, false, ==_iff, ◌<◌, ◌≤◌, ◌⊎◌, inl, inr, List, [], ◌∷◌, ◌++◌, ◌+◌, arith,
  length, ◌==◌, Bool-cases, if◌then◌else◌,
}
use japlusproxy.Throttle.RateLimit.Run.{Ascending, last_of, Ascending-lower}

abbrev pub Listed : ℕ → List ℕ → Type 0
Listed a [] = ⊥
Listed a (x ∷ xs) = (x ≡ a) ⊎ Listed a xs

-- The addresses but for the exempt one are among the senders of a list.
abbrev pub AllListed {ℓ} : {A : Type ℓ} → (A → ℕ) → ℕ → List ℕ → List A → Type 0
AllListed address exempt senders [] = Unit
AllListed address exempt senders (x ∷ xs) =
    (address x ≢ exempt → Listed (address x) senders) × AllListed address exempt senders xs

abbrev pub times {ℓ} : {A : Type ℓ} → (A → ℕ) → List A → List ℕ
times time [] = []
times time (x ∷ xs) = time x ∷ times time xs

abbrev pub own_times {ℓ} : {A : Type ℓ} → (A → ℕ) → (A → ℕ) → ℕ → List A → List ℕ
own_times address time q [] = []
own_times address time q (x ∷ xs) =
    if address x == q then time x ∷ own_times address time q xs else own_times address time q xs

module _ {ℓ} {A : Type ℓ} (address time : A → ℕ) where
  pub AllListed-append :
      (exempt : ℕ) (senders : List ℕ) (a b : List A)
      → AllListed address exempt senders (a ++ b)
      → AllListed address exempt senders a × AllListed address exempt senders b
  AllListed-append exempt senders [] b h = (tt, h)
  AllListed-append exempt senders (x ∷ a) b h =
      let (left, right) = AllListed-append exempt senders a b h.1 in ((h.0, left), right)

  pub Ascending-append :
      (now : ℕ) (a b : List A)
      → Ascending now (times time (a ++ b))
      → Ascending now (times time a) × Ascending (last_of now (times time a)) (times time b)
  Ascending-append now [] b h = (tt, h)
  Ascending-append now (x ∷ a) b h =
      let (left, right) = Ascending-append (time x) a b h.2 in ((h.0, h.1, left), right)

  -- One sender's times are in order if all are.
  pub Ascending-own_times :
      (q now : ℕ) (xs : List A)
      → Ascending now (times time xs)
      → Ascending now (own_times address time q xs)
  Ascending-own_times q now [] h = tt
  Ascending-own_times q now (x ∷ xs) h = elim (Bool-cases (address x == q)) [
    | inl own ↦ rw own (h.0, h.1, Ascending-own_times q (time x) xs h.2)
    | inr other ↦
        rw other (
          Ascending-lower (own_times address time q xs) h.0 (Ascending-own_times q (time x) xs h.2))
  ]
