-- ===== src/Loader/Choice.antt =====
-- Which library LoadReal of proxy/proxy.c adopts, described by the answers of the dynamic linker and
-- not by the tests of the code.
use japlusproxy.Prelude.{
  ℕ, ◌≡◌, ◌≢◌, refl, ap, inl, inr, Bytes, codes, Option, none, some, List, [], ◌∷◌, ◌++◌, arith,
  length, leb, ◌==◌, Bool-cases,
}
use japlusproxy.Hooks.Patch.{Platform}
use japlusproxy.Hooks.Install.{Linker, Detours}
use japlusproxy.Loader.{
  Real, Proxy, try_adopt_real, opened, checked, own_directory, or_try, load_real,
}
use japlusproxy.Loader.First.{first_real, candidates, files_in, named_file, load_real-first}
use japlusproxy.Loader.Sound.{IsReal, try_adopt_real-IsReal}
use japlusproxy.Loader.Directory.{OwnDirectory, own, own_directory-OwnDirectory}

-- A file that can be adopted, and what is then kept: it has a name, it opens, it has both entry
-- points, and it is not the proxy itself.
pub record IsAdoptable (l : Linker) (self : ℕ) (path : Bytes) (r : Real) : Type 0 where
  pub named : path ≢ []
  pub opens : l.open_library path ≡ some r.handle
  pub real : IsReal l self r

-- What the first file of a list that can be adopted gives.
pub data IsFirst (l : Linker) (self : ℕ) : List Bytes → Option Real → Type 0 where
  nothing : IsFirst l self [] none
  here :
      {path : Bytes} {rest : List Bytes} {r : Real}
      → IsAdoptable l self path r
      → IsFirst l self (path ∷ rest) (some r)
  later :
      {path : Bytes} {rest : List Bytes} {o : Option Real}
      → ((r : Real) → IsAdoptable l self path r → ⊥)
      → IsFirst l self rest o
      → IsFirst l self (path ∷ rest) o

-- The files to try, in order: the one that JAPLUS_REAL names, two in the proxy's directory, and the
-- same two in the working directory.
abbrev beside : Option Bytes → List Bytes
beside none = []
beside (some dir) = (dir ++ codes "/japlus_real_i386.so") ∷ (dir ++ codes "/jampgamei386.so") ∷ []

abbrev pub places : Option Bytes → Option Bytes → List Bytes
places none dir = beside dir ++ codes "./japlus_real_i386.so" ∷ codes "./jampgamei386.so" ∷ []
places (some path) dir =
    path ∷ beside dir ++ codes "./japlus_real_i386.so" ∷ codes "./jampgamei386.so" ∷ []

try_adopt_real_adoptable :
    (l : Linker) (self : ℕ) (path : Bytes) (r : Real)
    → IsAdoptable l self path r
    → try_adopt_real l self path ≡ some r
unfolding try_adopt_real
try_adopt_real_adoptable l self [] r h = absurd (h.named refl)
try_adopt_real_adoptable l self (c ∷ path) r h =
    rw (h.opens, h.real.vm_main, h.real.dll_entry)
      (elim (Bool-cases (r.vm_main == self)) [
        | inl own ↦ absurd (h.real.not_self (ground (arith, own)))
        | inr other ↦ rw other refl
      ])

try_adopt_real-opens :
    (l : Linker) (self : ℕ) (path : Bytes) (r : Real)
    → try_adopt_real l self path ≡ some r
    → (path ≢ []) × (l.open_library path ≡ some r.handle)
unfolding try_adopt_real
try_adopt_real-opens l self [] r h = cc
try_adopt_real-opens l self (c ∷ path) r h = ((λ e. cc e), of_open (l.open_library (c ∷ path)) h)
  where
    of_symbols :
        (handle : ℕ) (vm de : Option ℕ) → checked self handle vm de ≡ some r → handle ≡ r.handle
    of_symbols handle none de k = cc
    of_symbols handle (some vm) none k = cc
    of_symbols handle (some vm) (some de) k = elim (Bool-cases (vm == self)) [
      | inl own ↦ cc (rw own at k)
      | inr other ↦
          let found : Real = record { handle = handle; vm_main = vm; dll_entry = de } in
          let same : ◌≡◌ {A = Option Real} (some found) (some r) = rw other at k in
          let inner : found ≡ r = cc same in ap (λ (x : Real). x.handle) inner
    ]

    of_open : (o : Option ℕ) → opened l self o ≡ some r → o ≡ some r.handle
    of_open none k = cc
    of_open (some handle) k = ap some (of_symbols handle _ _ k)

first_real-IsFirst :
    (l : Linker) (self : ℕ) (paths : List Bytes) → IsFirst l self paths (first_real l self paths)
unfolding first_real
first_real-IsFirst l self [] = nothing
first_real-IsFirst l self (path ∷ paths) =
    of_this (try_adopt_real l self path) (first_real l self paths) refl
      (first_real-IsFirst l self paths)
  where
    of_this :
        (o later_on : Option Real)
        → try_adopt_real l self path ≡ o
        → IsFirst l self paths later_on
        → IsFirst l self (path ∷ paths) (or_try o later_on)
    of_this none later_on e rest =
        later (λ r h. cc (try_adopt_real_adoptable l self path r h, e)) rest
    of_this (some r) later_on e rest =
        let (named, opens) = try_adopt_real-opens l self path r e in
        here (record { named = named; opens = opens; real = try_adopt_real-IsReal l self path r e })

files_in-beside : (l : Linker) (self : ℕ) (o : Option Bytes) → files_in o ≡ beside (own l self o)
files_in-beside l self none = refl
files_in-beside l self (some dir) = elim (Bool-cases (leb 1024 (length dir))) [
  | inl long ↦ rw long refl
  | inr short ↦ rw short refl
]

candidates-places :
    (l : Linker) (self : ℕ)
    → candidates l self
      ≡ places (l.variable (codes "JAPLUS_REAL")) (own l self (own_directory (l.module_of self)))
candidates-places l self =
    rw (files_in-beside l self (own_directory (l.module_of self)))
      (of_variable (l.variable (codes "JAPLUS_REAL")))
  where
    of_variable :
        (v : Option Bytes)
        → named_file v
            ++ (beside (own l self (own_directory (l.module_of self)))
                ++ codes "./japlus_real_i386.so" ∷ codes "./jampgamei386.so" ∷ [])
          ≡ places v (own l self (own_directory (l.module_of self)))
    of_variable none = refl
    of_variable (some path) = refl

-- Where no library is loaded, LoadReal adopts the first file that has a name, opens, has both entry
-- points and is not the proxy itself, and none if there is none, among the file that JAPLUS_REAL
-- names, japlus_real_i386.so and jampgamei386.so in the directory of the proxy's own file, and the
-- same two in the working directory; the two beside the proxy are left out exactly if the linker
-- names no file for it, or its directory is not written or has a name of 1024 bytes or more.
pub load_real-IsFirst :
    (l : Linker) (p : Platform) (d : Detours) (self : ℕ) (s : Proxy)
    → s.real ≡ none
    → (dir : Option Bytes) × OwnDirectory l self dir
      × IsFirst l self (places (l.variable (codes "JAPLUS_REAL")) dir) (load_real l p d self s).real
load_real-IsFirst l p d self s e =
    let dir = own l self (own_directory (l.module_of self)) in
    (
      dir,
      own_directory-OwnDirectory l self,
      rw (load_real-first l p d self s e, ← candidates-places l self)
          (first_real-IsFirst l self (candidates l self)),
    )
