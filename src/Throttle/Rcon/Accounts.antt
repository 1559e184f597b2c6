-- ===== src/Throttle/Rcon/Accounts.antt =====
-- What became of every password attempt of a run: the rcon detour of proxy/patch.c.
use japlusproxy.Prelude.{ℕ, ◌+◌, ◌^◌, ◌<◌, ◌≡◌, refl, inl, inr, List, length, ◌==◌, Bool-cases}
use japlusproxy.Prelude.Int.{pos}
use japlusproxy.Throttle.Tally.{Tally, Fate, account, IsCounted, IsAccounted, account-IsAccounted}
use japlusproxy.Throttle.Buckets.{charge}
use japlusproxy.Throttle.Rcon.{Rcon, loopback, rcon_burst, rcon_period, detour_rcon}
use japlusproxy.Throttle.Rcon.Senders.{Attempt}

pub fate : Attempt → Rcon → Fate Rcon
fate (ipi, t) s =
    let r = detour_rcon ipi (pos t) s in
    record { after = r.after; forwarded = r.forwarded; logged = r.logged }

abbrev pub tally_of : Rcon → Tally
tally_of s = s.tally

fate-IsCounted : (a : Attempt) (s : Rcon) → IsCounted tally_of s.tally (pos a.1) (fate a s)
unfolding fate detour_rcon
fate-IsCounted (ipi, t) s = elim (Bool-cases (ipi == loopback)) [
  | inl local ↦ inl (rw local refl, rw local refl, rw local refl)
  | inr far ↦ elim (Bool-cases (charge s.table ipi rcon_burst rcon_period (pos t)).1) [
    | inl over ↦ inr (rw (far, over) refl, rw (far, over) refl, rw (far, over) refl)
    | inr room ↦ inl (rw (far, room) refl, rw (far, room) refl, rw (far, room) refl)
  ]
]

-- Every attempt of a run reached the handler, is in a count of the log or is in the count that is
-- left, which has taken over the count before the run, if these fit an `int`.
pub rcon_accounts :
    (s : Rcon) (attempts : List Attempt) (d : ℕ)
    → s.tally.dropped ≡ pos d
    → d + length attempts < 2 ^ 31
    → IsAccounted tally_of d (length attempts) (account fate s attempts)
rcon_accounts = account-IsAccounted tally_of (λ a _. pos a.1) fate fate-IsCounted
