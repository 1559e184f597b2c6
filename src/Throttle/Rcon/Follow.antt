-- ===== src/Throttle/Rcon/Follow.antt =====
-- The rcon detour of proxy/patch.c beside a meter for every address, while few addresses try.
use japlusproxy.Prelude.{
  ℕ, ◌^◌, ◌≤◌, ◌<◌, ◌≡◌, ◌≢◌, ap, ◌∙◌, inl, inr, false, not, List, [], ◌∷◌, arith, length, ◌==◌,
  ==_iff, Bool-cases,
}
use japlusproxy.Prelude.Int.{pos}
use japlusproxy.Throttle.RateLimit.Run.{Ascending, last_of}
use japlusproxy.Throttle.Crowd.{times, AllListed}
use japlusproxy.Throttle.Crowd.Recent.{insert, recent_of, Past, IsCalm, past_of}
use japlusproxy.Throttle.Crowd.Few.{AllListed-IsCalm}
use japlusproxy.Throttle.Buckets.{empty_meter}
use japlusproxy.Throttle.Buckets.Calm.{Follows}
use japlusproxy.Throttle.Buckets.Calm.Step.{Follows-answer, Follows-charge}
use japlusproxy.Throttle.Buckets.Calm.Start.{Follows-init, Follows-later}
use japlusproxy.Throttle.Buckets.View.{Meters, ideal_charge}
use japlusproxy.Throttle.Rcon.{Rcon, rcon_init, loopback, rcon_burst, rcon_period, detour_rcon}
use japlusproxy.Throttle.Rcon.Senders.{
  Attempt, IsReady, detour-table, detour-forwarded, detour_rcon-loopback,
}

-- The state after a run.
unfoldable pub state_after : Rcon → List Attempt → Rcon
state_after s [] = s
state_after s ((ipi, t) ∷ rest) = state_after (detour_rcon ipi (pos t) s).after rest

abbrev pub arrivals : List Attempt → List ℕ
arrivals attempts = times (λ (a : Attempt). a.1) attempts

abbrev pub past_after : Past → List Attempt → Past
past_after past attempts =
    past_of (λ (a : Attempt). a.0) (λ (a : Attempt). a.1) loopback past attempts

-- At no attempt have more than 64 addresses from outside tried within 12000 ms.
abbrev pub FewTry : Past → List Attempt → Type 0
FewTry past attempts =
    IsCalm (λ (a : Attempt). a.0) (λ (a : Attempt). a.1) loopback 64 12000 past attempts

-- The senders from outside are among those of a list.
abbrev pub FromListed : List ℕ → List Attempt → Type 0
FromListed senders attempts = AllListed (λ (a : Attempt). a.0) loopback senders attempts

pub FromListed-FewTry :
    (senders : List ℕ) (attempts : List Attempt)
    → length senders ≤ 64
    → FromListed senders attempts
    → FewTry [] attempts
FromListed-FewTry senders attempts few =
    AllListed-IsCalm senders (λ (a : Attempt). a.0) (λ (a : Attempt). a.1) loopback 64 12000 few
      attempts

-- The guard beside the specification.
abbrev pub Beside : Past → ℕ → Rcon → Meters → Type 0
Beside past now s m = Follows 64 5 2000 past now s.table m

pub Beside-init : Beside [] 0 rcon_init (λ _. empty_meter)
Beside-init = Follows-init 64 5 2000

module _ {past : Past} {now : ℕ} (s : Rcon) {m : Meters} (f : Beside past now s m) (ipi at : ℕ)
    (after : now ≤ at) (fits : at < 2 ^ 31) (far : (ipi == loopback) ≡ false) where
  ready : IsReady s
  ready = record { packed = f.packed; some_slot = omega (arith, f.size) }

  -- An attempt gets the verdict of the specification.
  pub forwarded-ideal :
      (detour_rcon ipi (pos at) s).forwarded
      ≡ not (ideal_charge m ipi rcon_burst rcon_period (pos at)).1
  forwarded-ideal =
      detour-forwarded ipi (pos at) s ready far
      ∙ ap not (
          Follows-answer 64 5 2000 (omega arith) (omega arith) (omega arith) (omega arith) past now
            s.table m f ipi at after fits)

  pub Beside-detour :
      (ipi ≢ loopback → length (insert ipi (recent_of 12000 at past)) ≤ 64)
      → Beside
          ((ipi, at) ∷ past)
          at
          (detour_rcon ipi (pos at) s).after
          (ideal_charge m ipi rcon_burst rcon_period (pos at)).0
  Beside-detour calm =
      let few = calm (λ e. cc (far, (==_iff ipi loopback).1 e)) in
      rw (detour-table ipi (pos at) s ready far) (
        Follows-charge 64 5 2000 (omega arith) (omega arith) (omega arith) (omega arith) past now
          s.table m f ipi at after fits few)

pub run-Beside :
    (s : Rcon) (m : Meters) (past : Past) (now : ℕ) (attempts : List Attempt)
    → Beside past now s m
    → FewTry past attempts
    → Ascending now (arrivals attempts)
    → (m' : Meters) × Beside
        (past_after past attempts)
        (last_of now (arrivals attempts))
        (state_after s attempts)
        m'
unfolding state_after
run-Beside s m past now [] f calm in_time = (m, f)
run-Beside s m past now ((ipi, t) ∷ rest) f calm in_time = elim (Bool-cases (ipi == loopback)) [
  | inl local ↦
      let quiet = detour_rcon-loopback ipi (pos t) s local in
      rw (local, state_after, quiet)
        (run-Beside s m past t rest (Follows-later f t in_time.0) (rw local at calm.1) in_time.2)
  | inr far ↦ rw far (
      run-Beside (detour_rcon ipi (pos t) s).after
        (ideal_charge m ipi rcon_burst rcon_period (pos t)).0 ((ipi, t) ∷ past) t rest
        (Beside-detour s f ipi t in_time.0 in_time.1 far calm.0) (rw far at calm.1) in_time.2)
]
