-- ===== src/Throttle/Rcon/Guesses.antt =====
-- Password guesses from the start of the server on: no state of the tables is presumed.
use japlusproxy.Prelude.{
  ℕ, ◌+◌, ◌-◌, ◌*◌, ◌<◌, ◌≡◌, refl, inl, inr, false, not, Bool, List, [], ◌∷◌, ◌++◌, arith, length,
  ◌==◌, Bool-cases, if◌then◌else◌,
}
use japlusproxy.Prelude.Int.{pos}
use japlusproxy.Throttle.RateLimit.Run.{
  served, Ascending, Spaced, last_of, Ascending-lower, served_window, served-Spaced_first,
}
use japlusproxy.Throttle.Crowd.{Ascending-append, Ascending-own_times}
use japlusproxy.Throttle.Crowd.Recent.{Past, IsCalm-append}
use japlusproxy.Throttle.Buckets.{empty_meter}
use japlusproxy.Throttle.Buckets.Calm.Start.{Follows-later, Follows-IsRegular}
use japlusproxy.Throttle.Buckets.View.{Meters, ideal_charge, ideal_charge-own, ideal_charge-other}
use japlusproxy.Throttle.Rcon.{Rcon, rcon_init, loopback, rcon_burst, rcon_period, detour_rcon}
use japlusproxy.Throttle.Rcon.Senders.{Attempt, reached, times_of, not_local, detour_rcon-loopback}
use japlusproxy.Throttle.Rcon.Follow.{
  state_after, past_after, arrivals, FewTry, Beside, Beside-init, Beside-detour, forwarded-ideal,
  run-Beside,
}

one_unless : (over : Bool) → ◌≡◌ {A = ℕ} (if not over then 1 else 0) (if over then 0 else 1)
one_unless over = ground arith

module _ (q : ℕ) (outside : (loopback == q) ≡ false) where
  -- The attempts of `q` that reach the handler are those that its meter lets through; other senders
  -- make no difference.
  reached-served :
      (s : Rcon) (m : Meters) (past : Past) (now : ℕ) (attempts : List Attempt)
      → Beside past now s m
      → FewTry past attempts
      → Ascending now (arrivals attempts)
      → reached q s attempts ≡ served (m q) rcon_burst rcon_period (times_of q attempts)
  unfolding reached served
  reached-served s m past now [] f calm in_time = refl
  reached-served s m past now ((ipi, t) ∷ rest) f calm in_time =
      elim (Bool-cases (ipi == loopback)) [
        | inl local ↦
            let quiet = detour_rcon-loopback ipi (pos t) s local in
            let ih =
              reached-served s m past t rest (Follows-later f t in_time.0) (rw local at calm.1)
                in_time.2 in
            rw (not_local q ipi outside local, quiet) (omega (arith, ih))
        | inr far ↦
            let ih =
              reached-served (detour_rcon ipi (pos t) s).after
                (ideal_charge m ipi rcon_burst rcon_period (pos t)).0 ((ipi, t) ∷ past) t rest
                (Beside-detour s f ipi t in_time.0 in_time.1 far calm.0) (rw far at calm.1)
                in_time.2 in
            let passes = forwarded-ideal s f ipi t in_time.0 in_time.1 far in
            elim (Bool-cases (ipi == q)) [
              | inl own ↦
                  let (kept, over) = ideal_charge-own m ipi q rcon_burst rcon_period (pos t) own in
                  rw (own, passes, one_unless, ih, kept, over)
              | inr other ↦
                  let kept = ideal_charge-other m ipi q rcon_burst rcon_period (pos t) other in
                  rw (other, ih, kept) (omega arith)
            ]
      ]

-- From the start of the server, if no attempt from outside makes it more than 64 addresses from
-- there that have tried within 12000 ms, in any window of the run fewer than six attempts of an
-- address and one more for each 2000 ms reach the rcon handler, whoever else tries and however often;
-- the times are below 2 ^ 31 ms and do not go back.
pub rcon_guesses :
    (q : ℕ) (before window : List Attempt) (t : ℕ) (ts : List ℕ)
    → (loopback == q) ≡ false
    → FewTry [] (before ++ window)
    → Ascending 0 (arrivals (before ++ window))
    → times_of q window ≡ t ∷ ts
    → reached q (state_after rcon_init before) window * 2000 < 6 * 2000 + (last_of t ts - t)
rcon_guesses q before window t ts outside calm in_time own =
    let (early, late) =
      Ascending-append (λ (a : Attempt). a.0) (λ (a : Attempt). a.1) 0 before window in_time in
    let (calm_first, calm_then) =
      IsCalm-append (λ (a : Attempt). a.0) (λ (a : Attempt). a.1) loopback 64 12000 [] before window
        calm in
    let (m, f) = run-Beside rcon_init (λ _. empty_meter) [] 0 before Beside-init calm_first early in
    let now = last_of 0 (arrivals before) in
    let r = Follows-IsRegular f q in
    let in_order : Ascending now (times_of q window) =
      Ascending-own_times (λ (a : Attempt). a.0) (λ (a : Attempt). a.1) q now window late in
    let ordered : Ascending now (t ∷ ts) = rw own at in_order in
    let bucket =
      served_window 5 2000 (omega arith) (omega arith) (omega arith) r.burst r.last t ts r.capped
        (Ascending-lower (t ∷ ts) r.past ordered) in
    rw
      (
        reached-served q outside (state_after rcon_init before) m (past_after [] before) now window
            f calm_then late,
        own,
        r.same,
      )
      (omega (arith, bucket))

-- From the start of the server, if no attempt from outside makes it more than 64 addresses from
-- there that have tried within 12000 ms, every attempt of an address reaches the rcon handler, if each
-- is at least 2000 ms behind the one before, whoever else tries and however often; the times are
-- below 2 ^ 31 ms and do not go back.
pub rcon_patient :
    (q : ℕ) (attempts : List Attempt) (t : ℕ) (ts : List ℕ)
    → (loopback == q) ≡ false
    → FewTry [] attempts
    → Ascending 0 (arrivals attempts)
    → times_of q attempts ≡ t ∷ ts
    → Spaced 2000 t ts
    → reached q rcon_init attempts ≡ 1 + length ts
rcon_patient q attempts t ts outside calm in_time own spaced =
    let in_order : Ascending 0 (times_of q attempts) =
      Ascending-own_times (λ (a : Attempt). a.0) (λ (a : Attempt). a.1) q 0 attempts in_time in
    let ordered : Ascending 0 (t ∷ ts) = rw own at in_order in
    rw
      (
        reached-served q outside rcon_init (λ _. empty_meter) [] 0 attempts Beside-init calm
            in_time,
        own,
      )
      (served-Spaced_first 5 2000 (omega arith) (omega arith) (omega arith) 0 0 t ts (omega arith)
        (omega arith) ordered.1 spaced)
