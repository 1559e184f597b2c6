-- ===== src/Throttle/Oob/Ideal.antt =====
-- The connectionless detour of proxy/patch.c against its specification, where every address has a
-- meter of its own: the 256 buckets make no difference while few addresses send.
use japlusproxy.Prelude.{
  ℕ, ◌*◌, ◌/◌, ◌^◌, ◌≤◌, ◌<◌, ◌≡◌, refl, ap, inl, inr, Bytes, Bool, true, false, not, List, [], ◌∷◌,
  ◌==◌, Bool-cases, if◌then◌else◌,
}
use japlusproxy.Prelude.Int.{ℤ, pos, c_div, scale}
use japlusproxy.Throttle.RateLimit.{Meter, rate_limit}
use japlusproxy.Throttle.RateLimit.Run.{Ascending}
use japlusproxy.Throttle.Crowd.Recent.{Past}
use japlusproxy.Throttle.Buckets.{charge, empty_meter}
use japlusproxy.Throttle.Buckets.Calm.{span_of}
use japlusproxy.Throttle.Buckets.View.{Meters, ideal_charge}
use japlusproxy.Throttle.Rcon.{loopback}
use japlusproxy.Throttle.Oob.{Config, Oob, oob_init, refresh_cfg, detour_connless}
use japlusproxy.Throttle.Oob.Flood.{Packet, arrivals, detour_connless-loopback}
use japlusproxy.Throttle.Oob.Senders.{sender_limit, in_force}
use japlusproxy.Throttle.Oob.Follow.{
  FewSend, Beside, Beside-init, Beside-IsSteady, Beside-later, sender-ideal, Beside-detour,
}

pub record IdealOob : Type 0 where
  pub senders : Meters
  pub global : Meter
  pub config : Config

-- A packet is charged to its sender's meter and, if that has room, to the one of all senders.
unfoldable pub ideal_detour : (Bytes → ℤ) → ℤ → ℕ → IdealOob → IdealOob × Bool
ideal_detour cvar now ipi s =
    let c = refresh_cfg cvar now s.config in
    let (senders, over) = ideal_charge s.senders ipi (scale 10 c.ip) (c_div (pos 1000) c.ip) now in
    let (global, flood) = rate_limit s.global c.all (c_div (pos 1000) c.all) now in
    if ipi == loopback
    then (s, true)
    else if over
    then (record { senders = senders; global = s.global; config = c }, false)
    else (record { senders = senders; global = global; config = c }, not flood)

-- Which packets of a run reach the handler, and which ones should.
pub verdicts : (Bytes → ℤ) → Oob → List Packet → List Bool
verdicts cvar s [] = []
verdicts cvar s ((ipi, t, later) ∷ rest) =
    let r = detour_connless cvar (pos t) later ipi s in r.forwarded ∷ verdicts cvar r.after rest

pub ideal_verdicts : (Bytes → ℤ) → IdealOob → List Packet → List Bool
ideal_verdicts cvar s [] = []
ideal_verdicts cvar s ((ipi, t, later) ∷ rest) =
    let (s', passes) = ideal_detour cvar (pos t) ipi s in passes ∷ ideal_verdicts cvar s' rest

-- The guard's settings and its bucket for all, with a meter for every sender.
abbrev with_meters : Meters → Oob → IdealOob
with_meters m s = record { senders = m; global = s.global; config = s.config }

module _ (cvar : Bytes → ℤ) (r p : ℕ) (some_rate : 0 < r) (few : r ≤ 1000) (period : 1000 / r ≡ p)
    (ip : sender_limit cvar ≡ pos r) where
  -- One packet does to the guard what it does to the specification.
  detour-ideal :
      (past : Past) (now : ℕ) (s : Oob) (m : Meters)
      → Beside cvar r p some_rate few period ip past now s m
      → (ipi t : ℕ) (later : ℤ) → now ≤ t
      → t < 2 ^ 31
      → (ipi == loopback) ≡ false
      → ((ideal_detour cvar (pos t) ipi (with_meters m s)).0
          ≡ with_meters
              (ideal_charge m ipi (pos (10 * r)) (pos p) (pos t)).0
              (detour_connless cvar (pos t) later ipi s).after)
        × ((ideal_detour cvar (pos t) ipi (with_meters m s)).1
            ≡ (detour_connless cvar (pos t) later ipi s).forwarded)
  unfolding detour_connless ideal_detour
  detour-ideal past now s m h ipi t later after fits far =
      let c = refresh_cfg cvar (pos t) s.config in
      let steady = Beside-IsSteady cvar r p some_rate few period ip s h in
      let limit = in_force cvar (pos r) ip (pos t) later ipi s steady far in
      let answer = sender-ideal cvar r p some_rate few period ip s h ipi t later after fits in
      elim (Bool-cases (charge s.table ipi (pos (10 * r)) (pos p) (pos t)).1) [
        | inl over ↦ (
          rw (far, limit, period, ← answer, over) refl,
          rw (far, limit, period, ← answer, over) refl,
        )
        | inr room ↦
            elim (Bool-cases (rate_limit s.global c.all (c_div (pos 1000) c.all) (pos t)).1) [
              | inl flood ↦ (
                rw (far, limit, period, ← answer, room, flood) refl,
                rw (far, limit, period, ← answer, room, flood) refl,
              )
              | inr calm ↦ (
                rw (far, limit, period, ← answer, room, calm) refl,
                rw (far, limit, period, ← answer, room, calm) refl,
              )
            ]
      ]

  verdicts-ideal :
      (s : Oob) (m : Meters) (past : Past) (now : ℕ) (packets : List Packet)
      → Beside cvar r p some_rate few period ip past now s m
      → FewSend (span_of (10 * r) p) past packets
      → Ascending now (arrivals packets)
      → verdicts cvar s packets ≡ ideal_verdicts cvar (with_meters m s) packets
  unfolding verdicts ideal_verdicts ideal_detour
  verdicts-ideal s m past now [] h calm in_time = refl
  verdicts-ideal s m past now ((ipi, t, later) ∷ rest) h calm in_time =
      elim (Bool-cases (ipi == loopback)) [
        | inl local ↦
            let quiet = detour_connless-loopback cvar (pos t) later ipi s local in
            let same = Beside-later cvar r p some_rate few period ip s h t in_time.0 in
            let ih = verdicts-ideal s m past t rest same (rw local at calm.1) in_time.2 in
            rw (quiet, ideal_detour, local) (ap (◌∷◌ true) ih)
        | inr far ↦
            let (after, passes) = detour-ideal past now s m h ipi t later in_time.0 in_time.1 far in
            let next =
              Beside-detour cvar r p some_rate few period ip s h ipi t later in_time.0 in_time.1 far
                calm.0 in
            let ih =
              verdicts-ideal (detour_connless cvar (pos t) later ipi s).after
                (ideal_charge m ipi (pos (10 * r)) (pos p) (pos t)).0 ((ipi, t) ∷ past) t rest next
                (rw far at calm.1) in_time.2 in
            rw (ih, after, passes) refl
      ]

abbrev pub ideal_init : IdealOob
ideal_init = record { senders = λ _. empty_meter; global = empty_meter; config = oob_init.config }

-- From the start of the server, with a limit of `r` packets a second on one sender, from 1 to 1000,
-- and `p` ms for its period, while sv_maxOOBRateIP stays what it is, if no packet from outside makes
-- it more than 256 addresses from there that have sent within (10 * r + 1) * p ms, the packets of a
-- run that reach the handler are exactly those that pass where every address has a meter of its own;
-- the times are below 2 ^ 31 ms and do not go back.
pub oob_ideal :
    (cvar : Bytes → ℤ) (r p : ℕ)
    → 0 < r
    → r ≤ 1000
    → 1000 / r ≡ p
    → sender_limit cvar ≡ pos r
    → (packets : List Packet) → FewSend (span_of (10 * r) p) [] packets
    → Ascending 0 (arrivals packets)
    → verdicts cvar oob_init packets ≡ ideal_verdicts cvar ideal_init packets
oob_ideal cvar r p some few period ip packets =
    verdicts-ideal cvar r p some few period ip oob_init (λ _. empty_meter) [] 0 packets
      (Beside-init cvar r p some few period ip)
