-- ===== src/Loader/Session.antt =====
-- All calls of a server's life: dllEntry and vmMain, one after the other. What the dynamic linker
-- finds, and what the engine answers, may be other each time.
use mathlib.Core.List.{append_assoc}
use japlusproxy.Prelude.{
  ℕ, ◌≡◌, refl, sym, ap, ◌∙◌, true, false, Option, none, some, List, [], ◌∷◌, ◌++◌,
}
use japlusproxy.Prelude.Int.{ℤ, negsuc}
use japlusproxy.Engine.{Engine}
use japlusproxy.Hooks.Patch.{Platform}
use japlusproxy.Hooks.Install.{Linker, Detours, install_patches}
use japlusproxy.VmMain.{GameCall, Outcome, vm_main}
use japlusproxy.Loader.{
  Real, Proxy, with_patches, adopted, load_real, dll_entry, dispatched, vm_entry,
}
use japlusproxy.Loader.First.{
  first_real, candidates, search_real-first, load_real_empty, load_real_loaded,
}

-- A call of the engine: of vmMain, or of dllEntry, which is none.
pub record Event : Type 0 where
  pub linker : Linker
  pub engine : Engine
  pub call : Option GameCall

-- The library that LoadReal would find at the event.
abbrev pub found : ℕ → Event → Option Real
found self ev = first_real ev.linker self (candidates ev.linker self)

abbrev pub NoneFound : ℕ → List Event → Type 0
NoneFound self [] = Unit
NoneFound self (ev ∷ events) = (found self ev ≡ none) × NoneFound self events

module _ (p : Platform) (d : Detours) (self : ℕ) (games : ℕ → GameCall → ℤ) where
  abbrev entered : Event → Option GameCall → Proxy → Proxy × List Outcome
  entered ev none s = ((dll_entry ev.linker p d self s).0, [])
  entered ev (some call) s =
      let (s', outcome) = vm_entry ev.linker p d self ev.engine games call s in (s', outcome ∷ [])

  unfoldable pub run : List Event → Proxy → Proxy × List Outcome
  run [] s = (s, [])
  run (ev ∷ events) s =
      let (s', now) = entered ev ev.call s in
      let (s'', later) = run events s' in (s'', now ++ later)

  -- What the engine gets from a library, or without one.
  abbrev answer : Option Real → Engine → Option GameCall → List Outcome
  answer o e none = []
  answer none e (some call) = record { ret = negsuc 0; sent = []; forwarded = false } ∷ []
  answer (some r) e (some call) = vm_main e (games r.vm_main) true call ∷ []

  abbrev pub answers : Option Real → List Event → List Outcome
  answers o [] = []
  answers o (ev ∷ events) = answer o ev.engine ev.call ++ answers o events

  -- The proxy that has adopted a library and installed the hooks.
  abbrev pub installed : Linker → Real → Proxy → Proxy
  installed l r s = record {
    real = some r;
    patches_done = true;
    world = (install_patches p l d r.handle s.world).0;
    tramps = some (install_patches p l d r.handle s.world).1;
  }

  entered_by :
      (ev : Event) (s s' : Proxy)
      → load_real ev.linker p d self s ≡ s'
      → entered ev ev.call s ≡ (s', answer s'.real ev.engine ev.call)
  entered_by ev s s' e = of_call ev.call
    where
      of_real :
          (call : GameCall) (o : Option Real)
          → dispatched ev.linker p d self ev.engine games o call ∷ []
            ≡ answer o ev.engine (some call)
      of_real call none = unfold vm_main in refl
      of_real call (some r) = refl

      of_call : (o : Option GameCall) → entered ev o s ≡ (s', answer s'.real ev.engine o)
      of_call none = unfold dll_entry in rw e refl
      of_call (some call) = unfold vm_entry in rw (e, of_real call s'.real) refl

  -- With a library, nothing changes any more, and all calls go to it.
  run_loaded :
      (events : List Event) (s : Proxy) (r : Real)
      → s.real ≡ some r
      → run events s ≡ (s, answers (some r) events)
  unfolding run
  run_loaded [] s r e = refl
  run_loaded (ev ∷ events) s r e =
      let here = entered_by ev s s (load_real_loaded ev.linker p d self s r e) in
      rw (here, run_loaded events s r e, e) refl

  -- How a session goes on from a proxy without a library.
  pub data Course (events : List Event) (s : Proxy) : Type 0 where
    never : NoneFound self events → run events s ≡ (s, answers none events) → Course events s
    once :
        (before : List Event) (ev : Event) (rest : List Event) (r : Real)
        → events ≡ before ++ ev ∷ rest
        → NoneFound self before
        → found self ev ≡ some r
        → run events s
          ≡ (installed ev.linker r s, answers none before ++ answers (some r) (ev ∷ rest))
        → Course events s

  module _ (s : Proxy) (empty : s.real ≡ none) (fresh : s.patches_done ≡ false) where
    load_real-found :
        (ev : Event) → load_real ev.linker p d self s ≡ adopted ev.linker p d self (found self ev) s
    load_real-found ev =
        load_real_empty ev.linker p d self s empty
        ∙ ap (λ o. adopted ev.linker p d self o s) (search_real-first ev.linker self)

    installs :
        (ev : Event) (r : Real) → with_patches ev.linker p d self r s ≡ installed ev.linker r s
    installs ev r = rw fresh refl

    Course-next :
        (ev : Event) (events : List Event)
        → (o : Option Real) → found self ev ≡ o
        → Course events s
        → Course (ev ∷ events) s
    unfolding run
    Course-next ev events none e (never failed same) =
        let here = entered_by ev s s (load_real-found ev ∙ rw e refl) in
        never (e, failed) (rw (here, same, empty) refl)
    Course-next ev events none e (once before at rest r split failed good same) =
        let here = entered_by ev s s (load_real-found ev ∙ rw e refl) in
        let later = answers none before in
        once (ev ∷ before) at rest r (ap (ev ∷◌) split) (e, failed) good
          (rw (here, same, empty)
            (ap (λ os. (installed at.linker r s, os))
              (sym (
                append_assoc (answer none ev.engine ev.call) later
                  (answers (some r) (at ∷ rest))))))
    Course-next ev events (some r) e later =
        let now = installed ev.linker r s in
        let here = entered_by ev s now (load_real-found ev ∙ rw e (installs ev r)) in
        once [] ev events r refl tt e (rw (here, run_loaded events now r refl) refl)

    -- From a proxy without a library or hooks, either LoadReal finds none at any of the calls, the
    -- proxy stays as it is, and each call of vmMain gets -1; or it adopts the library that it finds
    -- at the first call where there is one, installs the hooks there, once, changes nothing
    -- afterwards, and all calls of vmMain from there on go to this library, those before get -1.
    pub run-Course : (events : List Event) → Course events s
    run-Course [] = never tt (unfold run in refl)
    run-Course (ev ∷ events) = Course-next ev events (found self ev) refl (run-Course events)
