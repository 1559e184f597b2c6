-- ===== src/Loader/Sound.antt =====
-- What a library that LoadReal adopts has.
use japlusproxy.Prelude.{
  ℕ, ◌≡◌, ◌≢◌, refl, ap, ◌∙◌, sym, inl, inr, Bytes, codes, Option, none, some, List, [], ◌∷◌, arith,
  ◌==◌, Bool-cases,
}
use japlusproxy.Hooks.Patch.{Platform}
use japlusproxy.Hooks.Install.{Linker, Detours}
use japlusproxy.Loader.{Real, Proxy, checked, opened, try_adopt_real, or_try, load_real}
use japlusproxy.Loader.First.{first_real, candidates, load_real-first, load_real_loaded}

-- A library that may be adopted: it has both entry points, and is not the proxy.
pub record IsReal (l : Linker) (self : ℕ) (r : Real) : Type 0 where
  pub vm_main : l.symbol r.handle (codes "vmMain") ≡ some r.vm_main
  pub dll_entry : l.symbol r.handle (codes "dllEntry") ≡ some r.dll_entry
  pub not_self : r.vm_main ≢ self

pub try_adopt_real-IsReal :
    (l : Linker) (self : ℕ) (path : Bytes) (r : Real)
    → try_adopt_real l self path ≡ some r
    → IsReal l self r
unfolding try_adopt_real
try_adopt_real-IsReal l self [] r h = cc
try_adopt_real-IsReal l self (c ∷ path) r h = of_open (l.open_library (c ∷ path)) h
  where
    of_symbols :
        (handle : ℕ) (vm de : Option ℕ)
        → l.symbol handle (codes "vmMain") ≡ vm
        → l.symbol handle (codes "dllEntry") ≡ de
        → checked self handle vm de ≡ some r
        → IsReal l self r
    of_symbols handle none de e f k = cc
    of_symbols handle (some vm) none e f k = cc
    of_symbols handle (some vm) (some de) e f k = elim (Bool-cases (vm == self)) [
      | inl own ↦ cc (rw own at k)
      | inr other ↦
          let found : Real = record { handle = handle; vm_main = vm; dll_entry = de } in
          let same : ◌≡◌ {A = Option Real} (some found) (some r) = rw other at k in
          let inner : found ≡ r = cc same in
          rw (← inner) (record { vm_main = e; dll_entry = f; not_self = λ q. ground (arith, q) })
    ]

    of_open : (o : Option ℕ) → opened l self o ≡ some r → IsReal l self r
    of_open none k = cc
    of_open (some handle) k = of_symbols handle _ _ refl refl k

first_real-IsReal :
    (l : Linker) (self : ℕ) (paths : List Bytes) (r : Real)
    → first_real l self paths ≡ some r
    → IsReal l self r
unfolding first_real
first_real-IsReal l self [] r h = cc
first_real-IsReal l self (path ∷ paths) r h =
    of_first (try_adopt_real l self path) (first_real-IsReal l self paths r) refl h
  where
    of_first :
        (o : Option Real)
        → (first_real l self paths ≡ some r → IsReal l self r)
        → try_adopt_real l self path ≡ o
        → or_try o (first_real l self paths) ≡ some r
        → IsReal l self r
    of_first none later e k = later k
    of_first (some x) later e k = try_adopt_real-IsReal l self path r (e ∙ k)

-- A proxy whose library, if it has one, may be adopted.
abbrev pub IsSound : Linker → ℕ → Proxy → Type 0
IsSound l self s = (r : Real) → s.real ≡ some r → IsReal l self r

module _ (l : Linker) (p : Platform) (d : Detours) (self : ℕ) where
  -- Loading keeps the library that it has, and one that it adopts has both entry points and is not
  -- the proxy itself.
  pub load_real-IsSound : (s : Proxy) → IsSound l self s → IsSound l self (load_real l p d self s)
  load_real-IsSound s sound = of_real s.real refl
    where
      of_real : (o : Option Real) → s.real ≡ o → IsSound l self (load_real l p d self s)
      of_real none e r h =
          first_real-IsReal l self (candidates l self) r (sym (load_real-first l p d self s e) ∙ h)
      of_real (some x) e r h =
          sound r (sym (ap (λ (y : Proxy). y.real) (load_real_loaded l p d self s x e)) ∙ h)
