-- ===== src/Throttle/Donedl.antt =====
-- Detour_DoneDownload of proxy/patch.c: the guard on donedl commands.
use japlusproxy.Prelude.{
  ℕ, ◌+◌, ◌^◌, ◌<◌, ◌≡◌, refl, Bytes, codes, Bool, true, false, not, Option, none, List, length,
  Bool-cases, inl, inr, if◌then◌else◌,
}
use japlusproxy.Prelude.Int.{ℤ, pos, ◌==ℤ◌}
use japlusproxy.Throttle.Tally.{
  Tally, count_drop, Fate, account, IsCounted, IsAccounted, account-IsAccounted,
  account-handled_none,
}

pub record DoneOutcome : Type 0 where
  pub after : Tally
  pub forwarded : Bool
  pub logged : Option ℤ

abbrev pub downloads : (Bytes → ℤ) → ℤ
downloads cvar = cvar (codes "sv_allowdownload")

detour_done_download : (Bytes → ℤ) → ℤ → Tally → DoneOutcome
detour_done_download cvar now s =
    let (tally, logged) = count_drop s now in
    if not (downloads cvar ==ℤ pos 0)
    then record { after = s; forwarded = true; logged = none }
    else record { after = tally; forwarded = false; logged = logged }

pub fate : (Bytes → ℤ) → ℤ → Tally → Fate Tally
fate cvar now s =
    let r = detour_done_download cvar now s in
    record { after = r.after; forwarded = r.forwarded; logged = r.logged }

abbrev pub tally_of : Tally → Tally
tally_of s = s

fate-IsCounted :
    (cvar : Bytes → ℤ) (now : ℤ) (s : Tally) → IsCounted tally_of s now (fate cvar now s)
unfolding fate detour_done_download
fate-IsCounted cvar now s = elim (Bool-cases (downloads cvar ==ℤ pos 0)) [
  | inl off ↦ inr (rw off refl, rw off refl, rw off refl)
  | inr on ↦ inl (rw on refl, rw on refl, rw on refl)
]

fate-stops :
    (cvar : Bytes → ℤ) (now : ℤ) (s : Tally)
    → downloads cvar ≡ pos 0
    → (fate cvar now s).forwarded ≡ false
unfolding fate detour_done_download
fate-stops cvar now s off = rw off refl

-- While downloads are disabled, no donedl command of a run reaches the handler, and every one is in
-- a count of the log or in the count that is left, which has taken over the count before the run,
-- if these fit an `int`.
pub done_download_counts :
    (cvar : Bytes → ℤ) (s : Tally) (times : List ℤ) (d : ℕ)
    → downloads cvar ≡ pos 0
    → s.dropped ≡ pos d
    → d + length times < 2 ^ 31
    → ((account (fate cvar) s times).handled ≡ 0)
      × IsAccounted tally_of d (length times) (account (fate cvar) s times)
done_download_counts cvar s times d off e small = (
  account-handled_none (fate cvar) (λ now s. fate-stops cvar now s off) s times,
  account-IsAccounted tally_of (λ now _. now) (fate cvar) (fate-IsCounted cvar) s times d e small,
)
