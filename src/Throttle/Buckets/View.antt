-- ===== src/Throttle/Buckets/View.antt =====
-- The specification of a table of buckets: a meter of its own for every address there is.
use japlusproxy.Prelude.{ℕ, ◌≡◌, Bool, true, false, ◌==◌, ==_iff, refl, if◌then◌else◌}
use japlusproxy.Prelude.Int.{ℤ}
use japlusproxy.Throttle.RateLimit.{Meter, rate_limit}

abbrev pub Meters : Type 0
Meters = ℕ → Meter

-- A packet is charged to its sender's meter, and to no other.
unfoldable pub ideal_charge : Meters → ℕ → ℤ → ℤ → ℤ → Meters × Bool
ideal_charge m ipi max_burst period now =
    let (own, over) = rate_limit (m ipi) max_burst period now in
    (λ q. if ipi == q then own else m q, over)

module _ (m : Meters) (ipi q : ℕ) (mb p now : ℤ) where
  pub ideal_charge-own :
      (ipi == q) ≡ true
      → ((ideal_charge m ipi mb p now).0 q ≡ (rate_limit (m q) mb p now).0)
        × ((ideal_charge m ipi mb p now).1 ≡ (rate_limit (m q) mb p now).1)
  unfolding ideal_charge
  ideal_charge-own own = rw (own, (==_iff ipi q).0 own) (refl, refl)

  pub ideal_charge-other : (ipi == q) ≡ false → (ideal_charge m ipi mb p now).0 q ≡ m q
  unfolding ideal_charge
  ideal_charge-other other = rw other refl
