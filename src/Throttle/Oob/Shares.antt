-- ===== src/Throttle/Oob/Shares.antt =====
-- Connectionless packets from the start of the server on: no state of the tables is presumed.
use native.Mathlib.Nat.{mul-le-mul_right}
use japlusproxy.Prelude.{
  ℕ, ◌+◌, ◌-◌, ◌*◌, ◌/◌, ◌≤◌, ◌<◌, ◌≡◌, inl, inr, Bytes, false, List, [], ◌∷◌, ◌++◌, arith, ◌==◌,
  Bool-cases,
}
use japlusproxy.Prelude.Int.{ℤ, pos}
use japlusproxy.Throttle.RateLimit.Run.{served, Ascending, last_of, Ascending-lower, served_window}
use japlusproxy.Throttle.Crowd.{Ascending-append, Ascending-own_times}
use japlusproxy.Throttle.Crowd.Recent.{Past, IsCalm-append}
use japlusproxy.Throttle.Buckets.{charge, empty_meter}
use japlusproxy.Throttle.Buckets.Calm.{span_of}
use japlusproxy.Throttle.Buckets.Calm.Start.{Follows-IsRegular}
use japlusproxy.Throttle.Buckets.View.{Meters, ideal_charge, ideal_charge-own, ideal_charge-other}
use japlusproxy.Throttle.Rcon.{loopback}
use japlusproxy.Throttle.Oob.{Oob, oob_init, detour_connless}
use japlusproxy.Throttle.Oob.Flood.{Packet, arrivals, detour_connless-loopback}
use japlusproxy.Throttle.Oob.Senders.{
  passed_from, times_from, sender_limit, detour_charges, at_most, not_local,
}
use japlusproxy.Throttle.Oob.Follow.{
  state_after, past_after, FewSend, Beside, Beside-init, Beside-IsSteady, Beside-later,
  sender-ideal, Beside-detour, run-Beside, some_p,
}

module _ (cvar : Bytes → ℤ) (r p : ℕ) (some_rate : 0 < r) (few : r ≤ 1000) (period : 1000 / r ≡ p)
    (ip : sender_limit cvar ≡ pos r) (q : ℕ) (outside : (loopback == q) ≡ false) where
  -- At most as many packets of `q` reach the handler as its meter lets through, whatever the others
  -- send.
  passed_from-served :
      (s : Oob) (m : Meters) (past : Past) (now : ℕ) (packets : List Packet)
      → Beside cvar r p some_rate few period ip past now s m
      → FewSend (span_of (10 * r) p) past packets
      → Ascending now (arrivals packets)
      → passed_from q cvar s packets ≤ served (m q) (pos (10 * r)) (pos p) (times_from q packets)
  unfolding passed_from served
  passed_from-served s m past now [] h calm in_time = omega arith
  passed_from-served s m past now ((ipi, t, later) ∷ rest) h calm in_time =
      elim (Bool-cases (ipi == loopback)) [
        | inl local ↦
            let quiet = detour_connless-loopback cvar (pos t) later ipi s local in
            let same = Beside-later cvar r p some_rate few period ip s h t in_time.0 in
            let ih = passed_from-served s m past t rest same (rw local at calm.1) in_time.2 in
            rw (not_local q ipi outside local, quiet) (omega (arith, ih))
        | inr far ↦
            let next =
              Beside-detour cvar r p some_rate few period ip s h ipi t later in_time.0 in_time.1 far
                calm.0 in
            let ih =
              passed_from-served (detour_connless cvar (pos t) later ipi s).after
                (ideal_charge m ipi (pos (10 * r)) (pos p) (pos t)).0 ((ipi, t) ∷ past) t rest next
                (rw far at calm.1) in_time.2 in
            elim (Bool-cases (ipi == q)) [
              | inl own ↦
                  let (kept, over) = ideal_charge-own m ipi q (pos (10 * r)) (pos p) (pos t) own in
                  let steady = Beside-IsSteady cvar r p some_rate few period ip s h in
                  let charges = detour_charges cvar (pos r) ip (pos t) later ipi s steady far in
                  let answer =
                    sender-ideal cvar r p some_rate few period ip s h ipi t later in_time.0
                      in_time.1 in
                  let passes =
                    at_most (charge s.table ipi (pos (10 * r)) (pos p) (pos t)).1
                      (detour_connless cvar (pos t) later ipi s).forwarded
                      (rw period at charges.2) in
                  rw (own, ← over, ← answer, ← kept) (ground (arith, ih, passes))
              | inr other ↦
                  let kept = ideal_charge-other m ipi q (pos (10 * r)) (pos p) (pos t) other in
                  rw (other, ← kept) (omega (arith, ih))
            ]
      ]

-- From the start of the server, with a limit of `r` packets a second on one sender, from 1 to 1000,
-- and `p` ms for its period, while sv_maxOOBRateIP stays what it is, if no packet from outside makes
-- it more than 256 addresses from there that have sent within (10 * r + 1) * p ms, in any window of
-- the run fewer than 10 * r + 1 packets of one address and one more for each period reach the
-- handler, whatever the others send; the times are below 2 ^ 31 ms and do not go back.
pub sender_share :
    (cvar : Bytes → ℤ) (r p : ℕ)
    → 0 < r
    → r ≤ 1000
    → 1000 / r ≡ p
    → sender_limit cvar ≡ pos r
    → (q : ℕ) (before window : List Packet) (t : ℕ) (ts : List ℕ) → (loopback == q) ≡ false
    → FewSend (span_of (10 * r) p) [] (before ++ window)
    → Ascending 0 (arrivals (before ++ window))
    → times_from q window ≡ t ∷ ts
    → passed_from q cvar (state_after cvar oob_init before) window * p
      < (10 * r + 1) * p + (last_of t ts - t)
sender_share cvar r p some few period ip q before window t ts outside calm in_time own =
    let (early, late) =
      Ascending-append (λ (a : Packet). a.0) (λ (a : Packet). a.1) 0 before window in_time in
    let (calm_first, calm_then) =
      IsCalm-append (λ (a : Packet). a.0) (λ (a : Packet). a.1) loopback 256 (span_of (10 * r) p) []
        before window calm in
    let (m, h) =
      run-Beside cvar r p some few period ip oob_init (λ _. empty_meter) [] 0 before
        (Beside-init cvar r p some few period ip) calm_first early in
    let now = last_of 0 (arrivals before) in
    let regular = Follows-IsRegular h.follows q in
    let in_order : Ascending now (times_from q window) =
      Ascending-own_times (λ (a : Packet). a.0) (λ (a : Packet). a.1) q now window late in
    let ordered : Ascending now (t ∷ ts) = rw own at in_order in
    let bucket =
      served_window (10 * r) p (some_p cvar r p some few period ip) (omega arith) (omega arith)
        regular.burst regular.last t ts regular.capped
        (Ascending-lower (t ∷ ts) regular.past ordered) in
    let through =
      passed_from-served cvar r p some few period ip q outside (state_after cvar oob_init before) m
        (past_after [] before) now window h calm_then late in
    let fewer = mul-le-mul_right p (rw (own, regular.same) at through) in
    omega (arith, bucket, fewer)
