-- ===== src/Tests/Throttle.antt =====
-- The tables of buckets and the rcon throttle on a few packets.
use japlusproxy.Prelude.{
  ℕ, ◌+◌, ◌-◌, ◌*◌, ◌<◌, ◌≡◌, refl, inl, inr, true, false, List, [], ◌∷◌, ◌++◌, arith,
}
use japlusproxy.Prelude.Int.{pos, ◌-ℤ◌, ◌+ℤ◌, wrap32}
use japlusproxy.Throttle.RateLimit.{rate_limit}
use japlusproxy.Throttle.RateLimit.Bound.{meter}
use japlusproxy.Throttle.RateLimit.Run.{last_of}
use japlusproxy.Throttle.Buckets.{Bucket, empty_meter, scan, bucket_for, charge}
use japlusproxy.Throttle.Buckets.Distinct.{Distinct, Kept, charge-Kept}
use japlusproxy.Throttle.Buckets.Meters.{meter_of}
use japlusproxy.Throttle.Rcon.{rcon_init, detour_rcon}
use japlusproxy.Throttle.Rcon.Senders.{Attempt, reached}
use japlusproxy.Throttle.Rcon
use japlusproxy.Throttle.Rcon.Guesses.{rcon_guesses, rcon_patient}
use japlusproxy.Throttle.Rcon.Ideal.{rcon_ideal}
use japlusproxy.Throttle.Rcon.Follow

abbrev holder : ℕ → ℕ → Bucket
holder ipi last = record { ipi = ipi; meter = meter 1 last; used = true }

abbrev two_taken : List Bucket
two_taken = holder 7 100 ∷ holder 9 50 ∷ []

two_taken-Distinct : Distinct two_taken
unfolding meter_of
two_taken-Distinct = (λ _. refl, (λ _. refl, tt))

charge-Kept_example : Kept two_taken 8 7 (charge two_taken 8 (pos 5) (pos 2000) (pos 4000)).0
charge-Kept_example =
    charge-Kept two_taken 8 (pos 5) (pos 2000) (pos 4000) (inl (refl, inl (refl, tt))) (omega arith)
      two_taken-Distinct 7 refl

-- A third sender evicts the older of the two.
evicts_oldest :
    bucket_for two_taken 8
    ≡ (holder 7 100 ∷ record { ipi = 8; meter = meter 0 0; used = true } ∷ [], 1)
unfolding bucket_for scan
evicts_oldest = refl

-- Two senders, of which one tries twice.
abbrev attempts : List Attempt
attempts = (7, 1000) ∷ (9, 1100) ∷ (7, 1200) ∷ []

-- The same, after a first attempt of each.
abbrev first_attempts : List Attempt
first_attempts = (9, 500) ∷ (7, 600) ∷ []

listed : Rcon.Follow.FromListed (7 ∷ 9 ∷ []) (first_attempts ++ attempts)
listed = (
  λ _. inr (inl refl),
  (λ _. inl refl, (λ _. inl refl, (λ _. inr (inl refl), (λ _. inl refl, tt)))),
)

rcon_guesses_example :
    reached 7 (Rcon.Follow.state_after rcon_init first_attempts) attempts * 2000
    < 6 * 2000 + (last_of 1000 (1200 ∷ []) - 1000)
rcon_guesses_example =
    rcon_guesses 7 first_attempts attempts 1000 (1200 ∷ []) refl
      (Rcon.Follow.FromListed-FewTry (7 ∷ 9 ∷ []) (first_attempts ++ attempts) (omega arith) listed)
      (
        omega arith,
        omega arith,
        (
          omega arith,
          omega arith,
          (omega arith, omega arith, (omega arith, omega arith, (omega arith, omega arith, tt))),
        ),
      )
      refl

-- A patient sender and one in between.
abbrev patient : List Attempt
patient = (9, 1000) ∷ (7, 1500) ∷ (9, 3000) ∷ []

rcon_patient_example : reached 9 rcon_init patient ≡ 2
rcon_patient_example =
    rcon_patient 9 patient 1000 (3000 ∷ []) refl
      (Rcon.Follow.FromListed-FewTry (7 ∷ 9 ∷ []) patient (omega arith)
        (λ _. inr (inl refl), (λ _. inl refl, (λ _. inr (inl refl), tt))))
      (omega arith, omega arith, (omega arith, omega arith, (omega arith, omega arith, tt))) refl
      (omega arith, omega arith, tt)

-- An address tries six times within a second; the sixth attempt is dropped.
abbrev guesses : List Attempt
guesses = (7, 1000) ∷ (7, 1100) ∷ (9, 1150) ∷ (7, 1200) ∷ (7, 1300) ∷ (7, 1400) ∷ (7, 1500) ∷ []

guesses-verdicts :
    Rcon.Ideal.verdicts rcon_init guesses ≡ true ∷ true ∷ true ∷ true ∷ true ∷ true ∷ false ∷ []
unfolding Rcon.Ideal.verdicts detour_rcon charge bucket_for scan rate_limit wrap32 ◌-ℤ◌ ◌+ℤ◌
guesses-verdicts = refl

-- By the time of the second of these, the first is forgotten.
abbrev spread : List Attempt
spread = (7, 1000) ∷ (9, 14000) ∷ (8, 14100) ∷ []

rcon_ideal_example :
    Rcon.Ideal.verdicts rcon_init spread ≡ Rcon.Ideal.ideal_verdicts (λ _. empty_meter) spread
rcon_ideal_example =
    rcon_ideal spread (λ _. omega arith, (λ _. omega arith, (λ _. omega arith, tt)))
      (omega arith, omega arith, (omega arith, omega arith, (omega arith, omega arith, tt)))
