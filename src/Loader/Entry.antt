-- ===== src/Loader/Entry.antt =====
-- vmMain with the loader in front of it.
use japlusproxy.Prelude.{ℕ, ◌≡◌, refl, Option, none, some, true}
use japlusproxy.Prelude.Int.{ℤ}
use japlusproxy.Engine.{Engine}
use japlusproxy.Hooks.Patch.{Platform}
use japlusproxy.Hooks.Install.{Linker, Detours}
use japlusproxy.VmMain.{GameCall, vm_main}
use japlusproxy.VmMain.Gate.{MayPass, vm_main-MayPass}
use japlusproxy.Loader.{Real, Proxy, load_real, dispatched, vm_entry}
use japlusproxy.Loader.Sound.{IsReal, IsSound, load_real-IsSound}

module _ (l : Linker) (p : Platform) (d : Detours) (self : ℕ) (e : Engine)
    (games : ℕ → GameCall → ℤ) where
  dispatched-MayPass :
      (o : Option Real) (call : GameCall)
      → (dispatched l p d self e games o call).forwarded ≡ true
      → (r : Real) × (o ≡ some r) × MayPass e call
  unfolding vm_main
  dispatched-MayPass none call h = cc
  dispatched-MayPass (some r) call h = (r, refl, vm_main-MayPass e (games r.vm_main) true call h)

  -- A call that reaches a game reaches the vmMain of a library that is loaded by then, has both entry
  -- points and is not the proxy itself, if the library that was loaded before, if any, had both and
  -- was not the proxy; and it is a command that is not blocked, the change of a userinfo of 1 to 1023
  -- bytes for which SanitizeUserinfo does not kick and whose model is not "darksidetool" (without the
  -- s), in any case of its letters, the begin of a slot from 0 to 31, or a call that has no case. The
  -- model "darksidetools" itself may pass, as the test compares 12 of its 13 letters and then wants
  -- the end.
  pub vm_entry-MayPass :
      (call : GameCall) (s : Proxy)
      → IsSound l self s
      → (vm_entry l p d self e games call s).1.forwarded ≡ true
      → (r : Real) × ((vm_entry l p d self e games call s).0.real ≡ some r)
        × IsReal l self r
        × MayPass e call
  unfolding vm_entry
  vm_entry-MayPass call s sound h =
      let (r, same, may) = dispatched-MayPass (load_real l p d self s).real call h in
      (r, same, load_real-IsSound l p d self s sound r same, may)
