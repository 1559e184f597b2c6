-- ===== src/Throttle/Rcon/Ideal.antt =====
-- The rcon detour of proxy/patch.c against its specification, where every address has a meter of
-- its own: the 64 buckets make no difference while few addresses try.
use japlusproxy.Prelude.{
  ℕ, ◌≡◌, refl, ap, inl, inr, Bool, true, not, List, [], ◌∷◌, ◌==◌, Bool-cases, if◌then◌else◌,
}
use japlusproxy.Prelude.Int.{pos}
use japlusproxy.Throttle.RateLimit.Run.{Ascending}
use japlusproxy.Throttle.Crowd.Recent.{Past}
use japlusproxy.Throttle.Buckets.{empty_meter}
use japlusproxy.Throttle.Buckets.Calm.Start.{Follows-later}
use japlusproxy.Throttle.Buckets.View.{Meters, ideal_charge}
use japlusproxy.Throttle.Rcon.{Rcon, rcon_init, loopback, rcon_burst, rcon_period, detour_rcon}
use japlusproxy.Throttle.Rcon.Senders.{Attempt, detour_rcon-loopback}
use japlusproxy.Throttle.Rcon.Follow.{
  arrivals, FewTry, Beside, Beside-init, Beside-detour, forwarded-ideal,
}

-- Which attempts of a run reach the handler.
unfoldable pub verdicts : Rcon → List Attempt → List Bool
verdicts s [] = []
verdicts s ((ipi, t) ∷ rest) =
    let r = detour_rcon ipi (pos t) s in r.forwarded ∷ verdicts r.after rest

-- Which ones should.
pub ideal_verdicts : Meters → List Attempt → List Bool
ideal_verdicts m [] = []
ideal_verdicts m ((ipi, t) ∷ rest) =
    let (m', over) = ideal_charge m ipi rcon_burst rcon_period (pos t) in
    if ipi == loopback then true ∷ ideal_verdicts m rest else not over ∷ ideal_verdicts m' rest

verdicts-ideal :
    (s : Rcon) (m : Meters) (past : Past) (now : ℕ) (attempts : List Attempt)
    → Beside past now s m
    → FewTry past attempts
    → Ascending now (arrivals attempts)
    → verdicts s attempts ≡ ideal_verdicts m attempts
unfolding verdicts ideal_verdicts
verdicts-ideal s m past now [] f calm in_time = refl
verdicts-ideal s m past now ((ipi, t) ∷ rest) f calm in_time = elim (Bool-cases (ipi == loopback)) [
  | inl local ↦
      let quiet = detour_rcon-loopback ipi (pos t) s local in
      rw (local, quiet)
        (ap (◌∷◌ true) (
          verdicts-ideal s m past t rest (Follows-later f t in_time.0) (rw local at calm.1)
            in_time.2))
  | inr far ↦
      let ih =
        verdicts-ideal (detour_rcon ipi (pos t) s).after
          (ideal_charge m ipi rcon_burst rcon_period (pos t)).0 ((ipi, t) ∷ past) t rest
          (Beside-detour s f ipi t in_time.0 in_time.1 far calm.0) (rw far at calm.1) in_time.2 in
      rw (far, ih, forwarded-ideal s f ipi t in_time.0 in_time.1 far) refl
]

-- From the start of the server, if no attempt from outside makes it more than 64 addresses from
-- there that have tried within 12000 ms, the attempts of a run that reach the handler are exactly
-- those that pass where every address has a meter of its own; the times are below 2 ^ 31 ms and do
-- not go back.
pub rcon_ideal :
    (attempts : List Attempt)
    → FewTry [] attempts
    → Ascending 0 (arrivals attempts)
    → verdicts rcon_init attempts ≡ ideal_verdicts (λ _. empty_meter) attempts
rcon_ideal attempts = verdicts-ideal rcon_init (λ _. empty_meter) [] 0 attempts Beside-init
