-- ===== src/Tests/Loader.antt =====
-- Loading the game library from beside the proxy, and installing the hooks.
use japlusproxy.Prelude.{
  ◌≡◌, refl, Bytes, Option, codes, true, false, none, some, ◌==◌, if◌then◌else◌, List, ◌∷◌, [], ℕ,
}
use japlusproxy.Prelude.Int.{ℤ, pos}
use japlusproxy.Info.Sanitize.{same_bytes}
use japlusproxy.Hooks.Install.{Linker, Detours, install_patches}
use japlusproxy.Hooks.Install.Armed.{Installs, install_patches-Installs}
use japlusproxy.VmMain.{GameCall, client_begin, vm_main}
use japlusproxy.VmMain.Gate.{MayPass}
use japlusproxy.Loader.{
  Real, Proxy, try_adopt_real, directory, try_adopt_real_next_to_self, search_real, load_real,
  vm_entry,
}
use japlusproxy.Loader.First.{first_real, candidates}
use japlusproxy.Loader.Directory.{OwnDirectory}
use japlusproxy.Loader.Choice.{IsFirst, places, load_real-IsFirst}
use japlusproxy.Loader.Sound.{IsReal}
use japlusproxy.Loader.Entry.{vm_entry-MayPass}
use japlusproxy.Loader.Session.{Event, Course, run-Course}
use japlusproxy.Tests.Plant.{platform, world}
use japlusproxy.Tests.Requests.{saying}

-- The proxy is at 77; the real library has the handle 5 and stands beside it, and the file that the
-- environment names is the proxy itself.
abbrev linker : Linker
linker = record {
  open_library = λ path.
      if same_bytes path (codes "/srv/japlus_real_i386.so")
      then some 5
      else if same_bytes path (codes "/srv/proxy.so")
      then some 6
      else none;
  symbol = λ handle name.
      if same_bytes name (codes "vmMain") then some (if handle == 5 then 100 else 77) else some 200;
  module_of = λ address. some (record { fbase = 0x700000; fname = some (codes "/srv/proxy.so") });
  variable =
      λ name. if same_bytes name (codes "JAPLUS_REAL") then some (codes "/srv/proxy.so") else none;
}

abbrev detours : Detours
detours = record { siege_find = 1; connless = 2; done_download = 3; rcon = 4 }

abbrev proxy : Proxy
proxy = record { real = none; patches_done = false; world = world; tramps = none }

install_patches-Installs_example :
    Installs world (install_patches platform linker detours 5 world).0
install_patches-Installs_example = install_patches-Installs platform linker detours 5 world tt tt

load_real-IsFirst_example :
    (dir : Option Bytes) × OwnDirectory linker 77 dir
    × IsFirst linker 77
        (places (linker.variable (codes "JAPLUS_REAL")) dir)
        (load_real linker platform detours 77 proxy).real
load_real-IsFirst_example = load_real-IsFirst linker platform detours 77 proxy refl

-- The library beside the proxy is found behind the proxy itself.
beside :
    first_real linker 77 (candidates linker 77)
    ≡ some (record { handle = 5; vm_main = 100; dll_entry = 200 })
unfolding first_real directory try_adopt_real same_bytes
beside = refl

abbrev games : ℕ → GameCall → ℤ
games address call = pos 1

begins :
    (vm_entry linker platform detours 77 saying games (client_begin (pos 3)) proxy).1.forwarded
    ≡ true
unfolding vm_entry load_real search_real try_adopt_real_next_to_self directory try_adopt_real
    same_bytes vm_main
begins = refl

vm_entry-MayPass_example :
    (r : Real) × ((vm_entry linker platform detours 77 saying games
        (client_begin (pos 3))
        proxy).0.real
      ≡ some r)
    × IsReal linker 77 r
    × MayPass saying (client_begin (pos 3))
vm_entry-MayPass_example =
    vm_entry-MayPass linker platform detours 77 saying games (client_begin (pos 3)) proxy
      (λ r e. cc e) begins

-- Nothing can be opened at the first call, and all is there at the second and the third.
abbrev nothing : Linker
nothing = record {
  open_library = λ path. none;
  symbol = λ handle name. none;
  module_of = λ address. none;
  variable = λ name. none;
}

abbrev events : List Event
events =
    record { linker = nothing; engine = saying; call = none }
    ∷ record { linker = linker; engine = saying; call = some (client_begin (pos 3)) }
    ∷ record { linker = linker; engine = saying; call = some (client_begin (pos 40)) }
    ∷ []

run-Course_example : Course platform detours 77 games events proxy
run-Course_example = run-Course platform detours 77 games proxy refl refl events
