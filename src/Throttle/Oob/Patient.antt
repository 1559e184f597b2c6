-- ===== src/Throttle/Oob/Patient.antt =====
-- A sender that keeps its pace is stopped by the bucket of all senders only.
use japlusproxy.Prelude.{
  ℕ, ◌-◌, ◌*◌, ◌/◌, ◌^◌, ◌≤◌, ◌<◌, ◌≡◌, ◌⊎◌, refl, ◌∙◌, inl, inr, Bytes, Bool, true, false, List,
  [], ◌∷◌, arith, ◌==◌, Bool-cases,
}
use japlusproxy.Prelude.Int.{ℤ, pos, c_div}
use japlusproxy.Throttle.RateLimit.{rate_limit}
use japlusproxy.Throttle.RateLimit.Bound.{meter, StepFacts, step_facts}
use japlusproxy.Throttle.RateLimit.Run.{Ascending, Spaced}
use japlusproxy.Throttle.Crowd.{Ascending-own_times}
use japlusproxy.Throttle.Crowd.Recent.{Past}
use japlusproxy.Throttle.Buckets.{charge, empty_meter}
use japlusproxy.Throttle.Buckets.Calm.{span_of}
use japlusproxy.Throttle.Buckets.View.{Meters, ideal_charge, ideal_charge-own, ideal_charge-other}
use japlusproxy.Throttle.Rcon.{loopback}
use japlusproxy.Throttle.Oob.{Oob, oob_init, refresh_cfg, detour_connless}
use japlusproxy.Throttle.Oob.Flood.{Packet, arrivals, detour_connless-loopback}
use japlusproxy.Throttle.Oob.Senders.{times_from, sender_limit, IsSteady, in_force, not_local}
use japlusproxy.Throttle.Oob.Follow.{
  FewSend, Beside, Beside-init, Beside-IsSteady, Beside-later, sender-ideal, Beside-detour, some_p,
}

-- The bucket of all senders has no room for a packet at `now`.
pub is_flood : (Bytes → ℤ) → ℤ → Oob → Bool
is_flood cvar now s =
    let c = refresh_cfg cvar now s.config in
    (rate_limit s.global c.all (c_div (pos 1000) c.all) now).1

-- The packets of `q` in a run that do not reach the handler meet a flood.
abbrev pub FloodOnly : ℕ → (Bytes → ℤ) → Oob → List Packet → Type 0
FloodOnly q cvar s [] = Unit
FloodOnly q cvar s ((ipi, t, later) ∷ rest) =
    let r = detour_connless cvar (pos t) later ipi s in
    ((ipi == q) ≡ true → r.forwarded ≡ false → is_flood cvar (pos t) s ≡ true)
    × FloodOnly q cvar r.after rest

-- A bucket at `b` and `l` has room for the first call, and the others are spaced.
abbrev IsPaced : ℕ → ℕ → ℕ → ℕ → List ℕ → Type 0
IsPaced mb p b l [] = Unit
IsPaced mb p b l (t ∷ ts) = ((b < mb) ⊎ (p ≤ t - l)) × (l ≤ t) × (t < 2 ^ 31) × Spaced p t ts

Spaced-IsPaced : (mb p b l t : ℕ) (ts : List ℕ) → l ≤ t → Spaced p t ts → IsPaced mb p b l ts
Spaced-IsPaced mb p b l t [] h s = tt
Spaced-IsPaced mb p b l t (u ∷ ts) h s = (inr (omega arith), omega arith, s.1, s.2)

module _ (cvar : Bytes → ℤ) (r p : ℕ) (some_rate : 0 < r) (few : r ≤ 1000) (period : 1000 / r ≡ p)
    (ip : sender_limit cvar ≡ pos r) where
  -- With room in the sender's bucket, the bucket of all decides.
  stopped-is_flood :
      (now later : ℤ) (ipi : ℕ) (s : Oob)
      → IsSteady cvar s
      → (ipi == loopback) ≡ false
      → (charge s.table ipi (pos (10 * r)) (pos p) now).1 ≡ false
      → (detour_connless cvar now later ipi s).forwarded ≡ false
      → is_flood cvar now s ≡ true
  unfolding detour_connless is_flood
  stopped-is_flood now later ipi s h far room stop =
      let limit = in_force cvar (pos r) ip now later ipi s h far in
      elim (Bool-cases (is_flood cvar now s)) [
        | inl full ↦ full
        | inr calm ↦ cc (rw (far, limit, period, room, calm) at stop)
      ]

  module _ (q : ℕ) (outside : (loopback == q) ≡ false) where
    own_step : (b l t : ℕ) → b ≤ 10 * r → l ≤ t → t < 2 ^ 31 → StepFacts b l (10 * r) p t
    own_step b l t capped on fits =
        step_facts b l (10 * r) p t (some_p cvar r p some_rate few period ip) (omega arith) capped
          (omega arith) on fits

    not_over :
        (b l t : ℕ) (f : StepFacts b l (10 * r) p t) → (b < 10 * r) ⊎ (p ≤ t - l) → f.over ≡ false
    not_over b l t f (inl room) = f.kept_room room
    not_over b l t f (inr spaced) = f.served_if_spaced spaced

    run-FloodOnly :
        (s : Oob) (m : Meters) (past : Past) (now : ℕ) (packets : List Packet) (b l : ℕ)
        → Beside cvar r p some_rate few period ip past now s m
        → FewSend (span_of (10 * r) p) past packets
        → Ascending now (arrivals packets)
        → m q ≡ meter b l
        → b ≤ 10 * r
        → IsPaced (10 * r) p b l (times_from q packets)
        → FloodOnly q cvar s packets
    run-FloodOnly s m past now [] b l h calm in_time regular capped paced = tt
    run-FloodOnly s m past now ((ipi, t, later) ∷ rest) b l h calm in_time regular capped paced =
        elim (Bool-cases (ipi == loopback)) [
          | inl local ↦
              let quiet = detour_connless-loopback cvar (pos t) later ipi s local in
              let same : (detour_connless cvar (pos t) later ipi s).after ≡ s = rw quiet refl in
              let other = not_local q ipi outside local in
              (
                λ own. cc (own, other),
                rw same (
                    run-FloodOnly s m past t rest b l
                      (Beside-later cvar r p some_rate few period ip s h t in_time.0)
                      (rw local at calm.1) in_time.2 regular capped (rw other at paced)),
              )
          | inr far ↦
              let next =
                Beside-detour cvar r p some_rate few period ip s h ipi t later in_time.0 in_time.1
                  far calm.0 in
              let go =
                run-FloodOnly (detour_connless cvar (pos t) later ipi s).after
                  (ideal_charge m ipi (pos (10 * r)) (pos p) (pos t)).0 ((ipi, t) ∷ past) t rest in
              elim (Bool-cases (ipi == q)) [
                | inl own ↦
                    let own_paced : IsPaced (10 * r) p b l (t ∷ times_from q rest) =
                      rw own at paced in
                    let f = own_step b l t capped own_paced.1 own_paced.2 in
                    let (kept, over) =
                      ideal_charge-own m ipi q (pos (10 * r)) (pos p) (pos t) own in
                    let answer =
                      sender-ideal cvar r p some_rate few period ip s h ipi t later in_time.0
                        in_time.1 in
                    let steady = Beside-IsSteady cvar r p some_rate few period ip s h in
                    (
                      λ _.
                          stopped-is_flood (pos t) later ipi s steady far
                            (answer ∙ over ∙ rw (regular, f.result) (not_over b l t f own_paced.0)),
                      go f.burst' f.last' next (rw far at calm.1) in_time.2
                          (kept ∙ rw (regular, f.result) refl) f.capped
                          (Spaced-IsPaced (10 * r) p f.burst' f.last' t (times_from q rest)
                            f.not_later own_paced.3),
                    )
                | inr other ↦
                    let kept = ideal_charge-other m ipi q (pos (10 * r)) (pos p) (pos t) other in
                    (
                      λ own. cc (own, other),
                      go b l next (rw far at calm.1) in_time.2 (kept ∙ regular) capped
                          (rw other at paced),
                    )
              ]
        ]

-- From the start of the server, with a limit of `r` packets a second on one sender, from 1 to 1000,
-- and `p` ms for its period, while sv_maxOOBRateIP stays what it is, if no packet from outside makes
-- it more than 256 addresses from there that have sent within (10 * r + 1) * p ms, a packet of an
-- address that waits `p` ms between its packets is stopped only when the bucket of all senders is
-- full, whatever the others send; the times are below 2 ^ 31 ms and do not go back.
pub detour_connless-FloodOnly :
    (cvar : Bytes → ℤ) (r p : ℕ)
    → 0 < r
    → r ≤ 1000
    → 1000 / r ≡ p
    → sender_limit cvar ≡ pos r
    → (q : ℕ) (packets : List Packet) (t : ℕ) (ts : List ℕ) → (loopback == q) ≡ false
    → FewSend (span_of (10 * r) p) [] packets
    → Ascending 0 (arrivals packets)
    → times_from q packets ≡ t ∷ ts
    → Spaced p t ts
    → FloodOnly q cvar oob_init packets
detour_connless-FloodOnly cvar r p some_rate few period ip q packets t ts outside calm in_time own
      spaced =
    let in_order : Ascending 0 (times_from q packets) =
      Ascending-own_times (λ (a : Packet). a.0) (λ (a : Packet). a.1) q 0 packets in_time in
    let ordered : Ascending 0 (t ∷ ts) = rw own at in_order in
    let paced : IsPaced (10 * r) p 0 0 (t ∷ ts) =
      (inl (omega arith), omega arith, ordered.1, spaced) in
    run-FloodOnly cvar r p some_rate few period ip q outside oob_init (λ _. empty_meter) [] 0
      packets 0 0 (Beside-init cvar r p some_rate few period ip) calm in_time refl (omega arith)
      (rw own paced)
