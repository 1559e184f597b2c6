-- ===== src/Throttle/Oob/Flood.antt =====
-- All connectionless packets together: what a spoofed flood can make the engine handle.
use japlusproxy.Prelude.{
  ℕ, ◌+◌, ◌*◌, ◌^◌, ◌≤◌, ◌<◌, ◌≡◌, refl, ◌∙◌, ap, ◌⊎◌, inl, inr, Bytes, codes, Bool, true, false,
  not, ◌&&◌, none, List, [], ◌∷◌, arith, ◌==◌, Bool-cases, if◌then◌else◌,
}
use japlusproxy.Prelude.Int.{ℤ, pos, ◌-ℤ◌, ltb_ℤ, c_div, wrap32, scale}
use japlusproxy.Throttle.RateLimit.{rate_limit}
use japlusproxy.Throttle.RateLimit.Bound.{meter, step_facts}
use japlusproxy.Throttle.RateLimit.Run.{Ascending, last_of, Ascending-lower, last_of_mono}
use japlusproxy.Throttle.Crowd.{times}
use japlusproxy.Throttle.Buckets.{charge}
use japlusproxy.Throttle.Rcon.{loopback}
use japlusproxy.Throttle.Oob.{Config, Oob, OobOutcome, limit_of, refresh_cfg, detour_connless}

-- A packet: the sender's address, the time, and the clock as the log line reads it.
abbrev pub Packet : Type 0
Packet = ℕ × ℕ × ℤ

abbrev pub arrivals : List Packet → List ℕ
arrivals packets = times (λ (a : Packet). a.1) packets

-- How many packets from other machines reach the engine's handler.
pub passed : (Bytes → ℤ) → Oob → List Packet → ℕ
passed cvar s [] = 0
passed cvar s ((ipi, t, later) ∷ rest) =
    let r = detour_connless cvar (pos t) later ipi s in
    (if not (ipi == loopback) && r.forwarded then 1 else 0) + passed cvar r.after rest

-- The limit on all senders that the engine's settings ask for.
abbrev global_limit : (Bytes → ℤ) → ℤ
global_limit cvar = limit_of (cvar (codes "sv_maxOOBRate")) (pos 1000)

-- The settings are not loaded yet, or are those that the engine still has.
abbrev pub IsSettled : (Bytes → ℤ) → Config → Type 0
IsSettled cvar c = (c.time ≡ pos 0) ⊎ (c.all ≡ global_limit cvar)

refresh_cfg-all :
    (cvar : Bytes → ℤ) (now : ℤ) (c : Config)
    → IsSettled cvar c
    → (refresh_cfg cvar now c).all ≡ global_limit cvar
unfolding refresh_cfg
refresh_cfg-all cvar now c (inl unset) =
    elim (Bool-cases (ltb_ℤ (wrap32 (now -ℤ c.time)) (pos 5000))) [
      | inl recent ↦ rw (unset)
      | inr stale ↦ rw (stale, unset)
    ]
refresh_cfg-all cvar now c (inr same) = ground (arith, same)

module _ (cvar : Bytes → ℤ) (now later : ℤ) (ipi : ℕ) (s : Oob)
    (far : (ipi == loopback) ≡ false) where
  abbrev after : OobOutcome
  after = detour_connless cvar now later ipi s

  abbrev limit : ℤ
  limit = (refresh_cfg cvar now s.config).all

  abbrev stopped : Bool
  stopped =
      let c = refresh_cfg cvar now s.config in
      (charge s.table ipi (scale 10 c.ip) (c_div (pos 1000) c.ip) now).1

  config-detour : after.after.config ≡ refresh_cfg cvar now s.config
  unfolding detour_connless
  config-detour = rw far (ground arith)

  -- A packet stops at its sender's bucket, or meets the bucket of all.
  global-detour :
      ((after.forwarded ≡ false) × (after.after.global ≡ s.global))
      ⊎ ((after.forwarded ≡ not (rate_limit s.global limit (c_div (pos 1000) limit) now).1)
          × (after.after.global ≡ (rate_limit s.global limit (c_div (pos 1000) limit) now).0))
  unfolding detour_connless
  global-detour = elim (Bool-cases stopped) [
    | inl over ↦ inl (rw (far, over) refl, rw (far, over) refl)
    | inr room ↦ inr (rw (far, room) (ground arith), rw (far, room) (ground arith))
  ]

-- This machine's own packets pass, and leave no trace.
pub detour_connless-loopback :
    (cvar : Bytes → ℤ) (now later : ℤ) (ipi : ℕ) (s : Oob)
    → (ipi == loopback) ≡ true
    → detour_connless cvar now later ipi s ≡ record { after = s; forwarded = true; logged = none }
unfolding detour_connless
detour_connless-loopback cvar now later ipi s h = rw h

not_cost :
    (over : Bool) (n p : ℕ)
    → ((if not over then 1 else 0) + n) * p ≡ (if over then 0 else p) + n * p
not_cost true n p = omega arith
not_cost false n p = omega arith

module _ (cvar : Bytes → ℤ) (mb p : ℕ) (some_burst : 0 < mb) (small : mb < 2 ^ 31)
    (some_period : 0 < p) (all : global_limit cvar ≡ pos mb)
    (period : c_div (pos 1000) (pos mb) ≡ pos p) where
  settled :
      (ipi t : ℕ) (later : ℤ) (s : Oob)
      → (ipi == loopback) ≡ false
      → IsSettled cvar s.config
      → IsSettled cvar (detour_connless cvar (pos t) later ipi s).after.config
  settled ipi t later s far c = inr (
      ap (λ x. x.all) (config-detour cvar (pos t) later ipi s far)
      ∙ refresh_cfg-all cvar (pos t) s.config c)

  global_result :
      (ipi t : ℕ) (later : ℤ) (s : Oob) (far : (ipi == loopback) ≡ false)
      → IsSettled cvar s.config
      → {b l : ℕ} → s.global ≡ meter b l
      → rate_limit s.global
          (limit cvar (pos t) later ipi s far)
          (c_div (pos 1000) (limit cvar (pos t) later ipi s far))
          (pos t)
        ≡ rate_limit (meter b l) (pos mb) (pos p) (pos t)
  global_result ipi t later s far c g =
      let found : limit cvar (pos t) later ipi s far ≡ pos mb =
        refresh_cfg-all cvar (pos t) s.config c ∙ all in
      rw (found, period, g)

  -- While sv_maxOOBRate stays what it is, with `mb` packets a second as the limit and `p` the period
  -- of it, the packets from other machines that reach the handler are at most what the common
  -- bucket has room for, and one for each period from its last time to the last packet.
  pub passed_potential :
      (s : Oob) (packets : List Packet) (b l : ℕ)
      → IsSettled cvar s.config
      → s.global ≡ meter b l
      → b ≤ mb
      → Ascending l (arrivals packets)
      → passed cvar s packets * p + b * p + l ≤ mb * p + last_of l (arrivals packets)
  unfolding passed
  passed_potential s [] b l c g cap times = grind arith
  passed_potential s ((ipi, t, later) ∷ rest) b l c g cap times =
      elim (Bool-cases (ipi == loopback)) [
        | inl local ↦
            let quiet = detour_connless-loopback cvar (pos t) later ipi s local in
            rw (local, quiet)
              (omega (
                arith,
                last_of_mono (arrivals rest) times.0,
                passed_potential s rest b l c g cap
                    (Ascending-lower (arrivals rest) times.0 times.2),
              ))
        | inr far ↦ elim (global-detour cvar (pos t) later ipi s far) [
          | inl (stop, same) ↦
              rw (far, stop)
                (omega (
                  arith,
                  last_of_mono (arrivals rest) times.0,
                  passed_potential (detour_connless cvar (pos t) later ipi s).after rest b l
                      (settled ipi t later s far c) (same ∙ g) cap
                      (Ascending-lower (arrivals rest) times.0 times.2),
                ))
          | inr (go, new) ↦
              let f = step_facts b l mb p t some_period some_burst cap small times.0 times.1 in
              let met = global_result ipi t later s far c g ∙ f.result in
              rw (far, go, met)
                (omega (
                  arith,
                  last_of_mono (arrivals rest) f.not_later,
                  f.paid,
                  not_cost f.over
                      (passed cvar (detour_connless cvar (pos t) later ipi s).after rest) p,
                  passed_potential (detour_connless cvar (pos t) later ipi s).after rest f.burst'
                      f.last' (settled ipi t later s far c) (new ∙ ap (λ x. x.0) met) f.capped
                      (Ascending-lower (arrivals rest) f.not_later times.2),
                ))
        ]
      ]
