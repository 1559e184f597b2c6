-- ===== src/Throttle/Rcon/Senders.antt =====
-- Password guesses over time, and what the rcon detour of proxy/patch.c does to its table.
use japlusproxy.Prelude.{
  ℕ, ◌+◌, ◌<◌, ◌≡◌, true, false, not, none, List, [], ◌∷◌, arith, length, ◌==◌, ==_iff,
  if◌then◌else◌,
}
use japlusproxy.Prelude.Int.{ℤ, pos}
use japlusproxy.Throttle.Crowd.{own_times}
use japlusproxy.Throttle.Buckets.{charge}
use japlusproxy.Throttle.Buckets.Meters.{Packed}
use japlusproxy.Throttle.Rcon.{Rcon, loopback, rcon_burst, rcon_period, detour_rcon}

-- An attempt: the sender's address and the time.
abbrev pub Attempt : Type 0
Attempt = ℕ × ℕ

-- How many attempts of `q` reach the engine's handler.
unfoldable pub reached : ℕ → Rcon → List Attempt → ℕ
reached q s [] = 0
reached q s ((ipi, t) ∷ rest) =
    let r = detour_rcon ipi (pos t) s in
    (if ipi == q then (if r.forwarded then 1 else 0) else 0) + reached q r.after rest

abbrev pub times_of : ℕ → List Attempt → List ℕ
times_of q attempts = own_times (λ (a : Attempt). a.0) (λ (a : Attempt). a.1) q attempts

-- A table that the detour can be in: its used buckets stand in front, and it is not empty.
pub record IsReady (s : Rcon) : Type 0 where
  pub packed : Packed s.table
  pub some_slot : 0 < length s.table

module _ (ipi : ℕ) (now : ℤ) (s : Rcon) (h : IsReady s) (far : (ipi == loopback) ≡ false) where
  pub detour-table :
      (detour_rcon ipi now s).after.table ≡ (charge s.table ipi rcon_burst rcon_period now).0
  unfolding detour_rcon
  detour-table = rw far (ground arith)

  pub detour-forwarded :
      (detour_rcon ipi now s).forwarded ≡ not (charge s.table ipi rcon_burst rcon_period now).1
  unfolding detour_rcon
  detour-forwarded = rw far (ground arith)

-- This machine's own attempts pass, and leave no trace.
pub detour_rcon-loopback :
    (ipi : ℕ) (now : ℤ) (s : Rcon)
    → (ipi == loopback) ≡ true
    → detour_rcon ipi now s ≡ record { after = s; forwarded = true; logged = none }
unfolding detour_rcon
detour_rcon-loopback ipi now s h = rw h

pub not_local :
    (q ipi : ℕ) → (loopback == q) ≡ false → (ipi == loopback) ≡ true → (ipi == q) ≡ false
not_local q ipi outside local = rw ((==_iff ipi loopback).0 local) outside
