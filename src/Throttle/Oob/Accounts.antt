-- ===== src/Throttle/Oob/Accounts.antt =====
-- What became of every connectionless packet of a run: the detour of proxy/patch.c.
use japlusproxy.Prelude.{
  ℕ, ◌+◌, ◌^◌, ◌<◌, ◌≡◌, refl, inl, inr, Bytes, Bool, List, length, ◌==◌, Bool-cases,
}
use japlusproxy.Prelude.Int.{ℤ, pos, c_div, scale}
use japlusproxy.Throttle.Tally.{Tally, Fate, account, IsCounted, IsAccounted, account-IsAccounted}
use japlusproxy.Throttle.RateLimit.{rate_limit}
use japlusproxy.Throttle.Buckets.{charge}
use japlusproxy.Throttle.Rcon.{loopback}
use japlusproxy.Throttle.Oob.{Config, Oob, refresh_cfg, detour_connless}
use japlusproxy.Throttle.Oob.Flood.{Packet}

pub fate : (Bytes → ℤ) → Packet → Oob → Fate Oob
fate cvar (ipi, t, later) s =
    let r = detour_connless cvar (pos t) later ipi s in
    record { after = r.after; forwarded = r.forwarded; logged = r.logged }

abbrev pub tally_of : Oob → Tally
tally_of s = s.tally

fate-IsCounted :
    (cvar : Bytes → ℤ) (a : Packet) (s : Oob) → IsCounted tally_of s.tally a.2 (fate cvar a s)
unfolding fate detour_connless
fate-IsCounted cvar (ipi, t, later) s = elim (Bool-cases (ipi == loopback)) [
  | inl local ↦ inl (rw local refl, rw local refl, rw local refl)
  | inr far ↦ elim (Bool-cases over) [
    | inl stop ↦ inr (rw (far, stop) refl, rw (far, stop) refl, rw (far, stop) refl)
    | inr room ↦ elim (Bool-cases flood) [
      | inl stop ↦
          inr (rw (far, room, stop) refl, rw (far, room, stop) refl, rw (far, room, stop) refl)
      | inr calm ↦
          inl (rw (far, room, calm) refl, rw (far, room, calm) refl, rw (far, room, calm) refl)
    ]
  ]
]
  where
    c : Config
    c = refresh_cfg cvar (pos t) s.config

    over : Bool
    over = (charge s.table ipi (scale 10 c.ip) (c_div (pos 1000) c.ip) (pos t)).1

    flood : Bool
    flood = (rate_limit s.global c.all (c_div (pos 1000) c.all) (pos t)).1

-- Every packet of a run reached the handler, is in a count of the log or is in the count that is
-- left, which has taken over the count before the run, if these fit an `int`.
pub oob_accounts :
    (cvar : Bytes → ℤ) (s : Oob) (packets : List Packet) (d : ℕ)
    → s.tally.dropped ≡ pos d
    → d + length packets < 2 ^ 31
    → IsAccounted tally_of d (length packets) (account (fate cvar) s packets)
oob_accounts cvar =
    account-IsAccounted tally_of (λ (a : Packet) _. a.2) (fate cvar) (fate-IsCounted cvar)
