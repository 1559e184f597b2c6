-- ===== src/VmMain/Userinfo.antt =====
-- The userinfo that the game finds when vmMain of proxy/proxy.c lets it look.
use japlusproxy.Prelude.{
  ◌+◌, ◌≤◌, ◌<◌, ◌≡◌, refl, Bytes, true, List, [], ◌∷◌, arith, length, inl, inr, Bool-cases,
  if◌then◌else◌,
}
use japlusproxy.Prelude.Int.{ℤ, pos, negsuc, ◌==ℤ◌}
use japlusproxy.Engine.{Request, set_userinfo, Engine}
use japlusproxy.Info.Sanitize.{
  Sanitized, kick, clean, fixed, userinfo_looks_evil, sanitize_userinfo, userinfo_size,
}
use japlusproxy.Info.Sanitize.Run.{AllRead}
use japlusproxy.Info.Sanitize.Game.{policy, result_of, sanitize_userinfo-AllRead}
use japlusproxy.VmMain.{GameCall, client_userinfo_changed, vm_main, on_userinfo, on_sanitized}
use japlusproxy.VmMain.Gate.{vm_main-MayPass}

-- Userinfos that the engine's buffer of MAX_INFO_STRING bytes holds whole.
abbrev pub IsWhole : (Bytes → Bytes) → Type 0
IsWhole keep = (s : Bytes) → length s < 1024 → keep s ≡ s

-- The userinfo of a client behind the calls that reach the engine, which keeps `keep s` where it is
-- given `s`.
abbrev set_by : (Bytes → Bytes) → ℤ → Bytes → Request → Bytes
set_by keep client ui (set_userinfo other new) = if other ==ℤ client then keep new else ui
set_by keep client ui _ = ui

abbrev pub stored : (Bytes → Bytes) → ℤ → Bytes → List Request → Bytes
stored keep client ui [] = ui
stored keep client ui (r ∷ rest) = stored keep client (set_by keep client ui r) rest

==ℤ_refl : (a : ℤ) → (a ==ℤ a) ≡ true
==ℤ_refl (pos n) = ground arith
==ℤ_refl (negsuc n) = ground arith

module _ (e : Engine) (game : GameCall → ℤ) (keep : Bytes → Bytes) (client : ℤ) where
  stored-on_sanitized :
      (ui : Bytes) (s : Sanitized)
      → IsWhole keep
      → length (result_of ui s) < 1024
      → (on_sanitized e game client s).forwarded ≡ true
      → stored keep client ui (on_sanitized e game client s).sent ≡ result_of ui s
  stored-on_sanitized ui kick whole room h = cc
  stored-on_sanitized ui clean whole room h = refl
  stored-on_sanitized ui (fixed new) whole room h = rw (==ℤ_refl client) (whole new room)

  stored-on_userinfo :
      IsWhole keep
      → length (
          result_of
            (e.userinfo client userinfo_size)
            (sanitize_userinfo (e.userinfo client userinfo_size)))
        < 1024
      → (on_userinfo e game client).forwarded ≡ true
      → stored keep client (e.userinfo client userinfo_size) (on_userinfo e game client).sent
        ≡ result_of
            (e.userinfo client userinfo_size)
            (sanitize_userinfo (e.userinfo client userinfo_size))
  unfolding on_userinfo
  stored-on_userinfo whole room h =
      let ui = e.userinfo client userinfo_size in
      elim (Bool-cases (userinfo_looks_evil ui)) [
        | inl evil ↦ cc (rw evil at h)
        | inr fair ↦
            rw fair (stored-on_sanitized ui (sanitize_userinfo ui) whole room (rw fair at h))
      ]

  -- The engine is taken to keep whole a userinfo of fewer than 1024 bytes, and may cut a longer one.
  -- When the game is called for a changed userinfo that had fewer than 935 bytes, the engine holds,
  -- behind the calls that vmMain has made, a userinfo from which the model, the force powers, the
  -- name, the class and the sabers read, where present, as the policy wants them, and which has at
  -- most 89 bytes more than before.
  pub vm_main-AllRead :
      IsWhole keep
      → length (e.userinfo client userinfo_size) < 935
      → (vm_main e game true (client_userinfo_changed client)).forwarded ≡ true
      → AllRead policy (
          stored keep client
            (e.userinfo client userinfo_size)
            (vm_main e game true (client_userinfo_changed client)).sent)
        × (length (
              stored keep client
                (e.userinfo client userinfo_size)
                (vm_main e game true (client_userinfo_changed client)).sent)
            ≤ length (e.userinfo client userinfo_size) + 89)
  unfolding vm_main
  vm_main-AllRead whole room h =
      let may = vm_main-MayPass e game true (client_userinfo_changed client) h in
      let (reads, _, grown) =
        sanitize_userinfo-AllRead (e.userinfo client userinfo_size) (omega (arith, room)) may.2 in
      rw (stored-on_userinfo whole (omega (arith, room, grown)) h) (reads, grown)
