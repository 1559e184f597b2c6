-- ===== src/Loader.antt =====
-- The loader of proxy/proxy.c: TryAdoptReal, TryAdoptRealNextToSelf, LoadReal, and the two exported
-- entry points, which call it. The dynamic linker and the environment are parameters; `self` is the
-- address of the proxy's own vmMain.
pub mod First
pub mod Sound
pub mod Directory
pub mod Choice
pub mod Entry
pub mod Session
use japlusproxy.Prelude.{
  ℕ, Bytes, codes, Bool, true, false, not, ◌||◌, Option, none, some, List, [], ◌∷◌, ◌++◌, length,
  take, leb, ◌==◌, if◌then◌else◌,
}
use japlusproxy.Prelude.Int.{ℤ}
use japlusproxy.Engine.{Engine}
use japlusproxy.Hooks.Patch.{Platform}
use japlusproxy.Hooks.Plant.{World}
use japlusproxy.Hooks.Install.{ModuleInfo, Linker, Detours, Tramps, install_patches}
use japlusproxy.VmMain.{GameCall, Outcome, vm_main}

-- g_real, real_vmMain and real_dllEntry, which are set together.
pub record Real : Type 0 where
  pub handle : ℕ
  pub vm_main : ℕ
  pub dll_entry : ℕ

-- The statics of the proxy: the real library if there is one, g_patches_done, and what the hooks keep.
pub record Proxy : Type 0 where
  pub real : Option Real
  pub patches_done : Bool
  pub world : World
  pub tramps : Option Tramps

abbrev is_null : Option ℕ → Bool
is_null none = true
is_null (some a) = false

-- The tests on the two symbols of an open library.
abbrev pub checked : ℕ → ℕ → Option ℕ → Option ℕ → Option Real
checked self handle none de = none
checked self handle (some vm) none = none
checked self handle (some vm) (some de) =
    if vm == self then none else some (record { handle = handle; vm_main = vm; dll_entry = de })

abbrev pub opened : Linker → ℕ → Option ℕ → Option Real
opened l self none = none
opened l self (some h) =
    checked self h (l.symbol h (codes "vmMain")) (l.symbol h (codes "dllEntry"))

abbrev is_empty : Bytes → Bool
is_empty [] = true
is_empty (c ∷ s) = false

-- TryAdoptReal: the library that it sets, none where it returns 0.
unfoldable pub try_adopt_real : Linker → ℕ → Bytes → Option Real
try_adopt_real l self path = if is_empty path then none else opened l self (l.open_library path)

-- strrchr(self, '/'): what stands before the last slash.
unfoldable pub directory : Bytes → Option Bytes
directory [] = none
directory (c ∷ s) = elim (directory s) [
  | some d ↦ some (c ∷ d)
  | none ↦ if c == b'/' then some [] else none
]

-- snprintf into `cand`
abbrev pub candidate : Bytes → Bytes → Bytes
candidate dir name = take 1151 (dir ++ b'/' ∷ name)

abbrev pub or_try : Option Real → Option Real → Option Real
or_try none later = later
or_try (some r) later = some r

abbrev pub in_directory : Linker → ℕ → Option Bytes → Option Real
in_directory l self none = none
in_directory l self (some dir) =
    if leb 1024 (length dir)
    then none
    else or_try (try_adopt_real l self (candidate dir (codes "japlus_real_i386.so")))
        (try_adopt_real l self (candidate dir (codes "jampgamei386.so")))

abbrev pub own_directory : Option ModuleInfo → Option Bytes
own_directory none = none
own_directory (some i) = elim i.fname [ none ↦ none | some name ↦ directory name ]

unfoldable pub try_adopt_real_next_to_self : Linker → ℕ → Option Real
try_adopt_real_next_to_self l self = in_directory l self (own_directory (l.module_of self))

-- `if (env && *env) TryAdoptReal(env)`
abbrev pub from_variable : Linker → ℕ → Option Bytes → Option Real
from_variable l self none = none
from_variable l self (some path) = if is_empty path then none else try_adopt_real l self path

-- The four attempts, each if those before have not set the library.
unfoldable pub search_real : Linker → ℕ → Option Real
search_real l self = or_try (from_variable l self (l.variable (codes "JAPLUS_REAL"))) (
    or_try (try_adopt_real_next_to_self l self) (
      or_try (try_adopt_real l self (codes "./japlus_real_i386.so"))
        (try_adopt_real l self (codes "./jampgamei386.so"))))

module _ (l : Linker) (p : Platform) (d : Detours) (self : ℕ) where
  -- `if (!g_patches_done) { … }`
  abbrev pub with_patches : Real → Proxy → Proxy
  with_patches r s =
      if s.patches_done
      then record s { real = some r }
      else let (world, tramps) = install_patches p l d r.handle s.world in
        record { real = some r; patches_done = true; world = world; tramps = some tramps }

  abbrev pub adopted : Option Real → Proxy → Proxy
  adopted none s = s
  adopted (some r) s = with_patches r s

  abbrev pub unless_loaded : Option Real → Proxy → Proxy
  unless_loaded none s = adopted (search_real l self) s
  unless_loaded (some r) s = s

  unfoldable pub load_real : Proxy → Proxy
  load_real s = unless_loaded s.real s

  -- dllEntry: the state after it, and the address that is called with Proxy_Syscall.
  abbrev called : Option Real → Option ℕ
  called none = none
  called (some r) = some r.dll_entry

  unfoldable pub dll_entry : Proxy → Proxy × Option ℕ
  dll_entry s = let s' = load_real s in (s', called s'.real)

  -- vmMain: the real vmMain answers by its address.
  abbrev pub dispatched : Engine → (ℕ → GameCall → ℤ) → Option Real → GameCall → Outcome
  dispatched e games none call = vm_main e (games 0) false call
  dispatched e games (some r) call = vm_main e (games r.vm_main) true call

  unfoldable pub vm_entry : Engine → (ℕ → GameCall → ℤ) → GameCall → Proxy → Proxy × Outcome
  vm_entry e games call s = let s' = load_real s in (s', dispatched e games s'.real call)
