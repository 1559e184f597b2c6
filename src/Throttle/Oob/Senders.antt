-- ===== src/Throttle/Oob/Senders.antt =====
-- The connectionless packets of one sender, and what a packet does to the table.
use native.Mathlib.Nat.{le-div_iff_mul-le}
use japlusproxy.Prelude.{
  ℕ, ◌+◌, ◌/◌, ◌≤◌, ◌<◌, ◌≡◌, refl, ◌∙◌, ap, ◌⊎◌, inl, inr, Bytes, codes, Bool, true, false, List,
  [], ◌∷◌, arith, length, ◌==◌, ==_iff, Bool-cases, if◌then◌else◌,
}
use japlusproxy.Prelude.Int.{ℤ, pos, ◌-ℤ◌, ltb_ℤ, c_div, wrap32, scale}
use japlusproxy.Throttle.Crowd.{own_times}
use japlusproxy.Throttle.Buckets.{charge}
use japlusproxy.Throttle.Buckets.Meters.{Packed}
use japlusproxy.Throttle.Buckets.Charge.{Charged, charge-Charged}
use japlusproxy.Throttle.Rcon.{loopback}
use japlusproxy.Throttle.Oob.{Config, Oob, limit_of, refresh_cfg, detour_connless}
use japlusproxy.Throttle.Oob.Flood.{Packet}

-- How many packets of `q` reach the engine's handler.
unfoldable pub passed_from : ℕ → (Bytes → ℤ) → Oob → List Packet → ℕ
passed_from q cvar s [] = 0
passed_from q cvar s ((ipi, t, later) ∷ rest) =
    let r = detour_connless cvar (pos t) later ipi s in
    (if ipi == q then (if r.forwarded then 1 else 0) else 0) + passed_from q cvar r.after rest

abbrev pub times_from : ℕ → List Packet → List ℕ
times_from q packets = own_times (λ (a : Packet). a.0) (λ (a : Packet). a.1) q packets

-- The limit on one sender that the engine's settings ask for.
abbrev pub sender_limit : (Bytes → ℤ) → ℤ
sender_limit cvar = limit_of (cvar (codes "sv_maxOOBRateIP")) (pos 1)

-- A state that the guard can be in while sv_maxOOBRateIP stays what it is: the used buckets stand in
-- front, there is a bucket, and the settings are not loaded yet or are those that the engine has.
pub record IsSteady (cvar : Bytes → ℤ) (s : Oob) : Type 0 where
  pub packed : Packed s.table
  pub some_slot : 0 < length s.table
  pub known : (s.config.time ≡ pos 0) ⊎ (s.config.ip ≡ sender_limit cvar)

refresh_cfg-ip :
    (cvar : Bytes → ℤ) (now : ℤ) (c : Config)
    → (c.time ≡ pos 0) ⊎ (c.ip ≡ sender_limit cvar)
    → (refresh_cfg cvar now c).ip ≡ sender_limit cvar
unfolding refresh_cfg
refresh_cfg-ip cvar now c (inl unset) =
    elim (Bool-cases (ltb_ℤ (wrap32 (now -ℤ c.time)) (pos 5000))) [
      | inl recent ↦ rw (unset)
      | inr stale ↦ rw (stale, unset)
    ]
refresh_cfg-ip cvar now c (inr same) = ground (arith, same)

abbrev pub one_if : Bool → ℕ
one_if true = 1
one_if false = 0

pub at_most :
    (over forwarded : Bool) → (over ≡ true → forwarded ≡ false) → one_if forwarded + one_if over ≤ 1
at_most true forwarded stop = rw (stop refl) (omega arith)
at_most false true stop = omega arith
at_most false false stop = omega arith

module _ (cvar : Bytes → ℤ) (limit : ℤ) (ip : sender_limit cvar ≡ limit) where
  abbrev burst : ℤ
  burst = scale 10 limit

  abbrev period : ℤ
  period = c_div (pos 1000) limit

  module _ (now later : ℤ) (ipi : ℕ) (s : Oob) (h : IsSteady cvar s)
      (far : (ipi == loopback) ≡ false) where
    pub in_force : (refresh_cfg cvar now s.config).ip ≡ limit
    in_force = refresh_cfg-ip cvar now s.config h.known ∙ ip

    pub charged : Charged s.table ipi burst period now
    charged = charge-Charged s.table ipi burst period now h.packed h.some_slot

    -- What the detour does of the table, whether the sender is over its limit or not.
    pub detour_charges :
        ((detour_connless cvar now later ipi s).after.table
          ≡ (charge s.table ipi burst period now).0)
        × ((detour_connless cvar now later ipi s).after.config ≡ refresh_cfg cvar now s.config)
        × ((charge s.table ipi burst period now).1 ≡ true
            → (detour_connless cvar now later ipi s).forwarded ≡ false)
    unfolding detour_connless
    detour_charges = elim (Bool-cases (charge s.table ipi burst period now).1) [
      | inl over ↦ (
        rw (far, in_force, over) refl,
        rw (far, in_force, over) refl,
        λ _. rw (far, in_force, over) refl,
      )
      | inr room ↦ (
        rw (far, in_force, room) (ground arith),
        rw (far, in_force, room) (ground arith),
        λ over. cc (room, over),
      )
    ]

    pub detour-IsSteady : IsSteady cvar (detour_connless cvar now later ipi s).after
    detour-IsSteady = record {
      packed = rw detour_charges.0 charged.packed;
      some_slot = rw (detour_charges.0, charged.same_length) h.some_slot;
      known = inr (ap (λ c. c.ip) detour_charges.1 ∙ refresh_cfg-ip cvar now s.config h.known);
    }

pub not_local :
    (q ipi : ℕ) → (loopback == q) ≡ false → (ipi == loopback) ≡ true → (ipi == q) ≡ false
not_local q ipi outside local = rw ((==_iff ipi loopback).0 local) outside

pub some_period : (r : ℕ) → 0 < r → r ≤ 1000 → 0 < 1000 / r
some_period r some few = (le-div_iff_mul-le some).1 (omega arith)
