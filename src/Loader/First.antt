-- ===== src/Loader/First.antt =====
-- Which library LoadReal adopts.
use japlusproxy.Prelude.{
  ℕ, ◌≤◌, ◌<◌, ◌≡◌, refl, ap, ◌∙◌, sym, inl, inr, Bytes, codes, Option, none, some, List, [], ◌∷◌,
  ◌++◌, arith, length, length-append, take_all, leb, Bool-cases, if◌then◌else◌,
}
use japlusproxy.Hooks.Patch.{Platform}
use japlusproxy.Hooks.Install.{Linker, Detours}
use japlusproxy.Loader.{
  Real, Proxy, try_adopt_real, candidate, or_try, in_directory, own_directory,
  try_adopt_real_next_to_self, from_variable, search_real, load_real, unless_loaded, adopted,
}

-- The first file of a list that can be adopted.
unfoldable pub first_real : Linker → ℕ → List Bytes → Option Real
first_real l self [] = none
first_real l self (path ∷ paths) = or_try (try_adopt_real l self path) (first_real l self paths)

-- The files to try, in order: the one that the environment names, the two beside the proxy, and the
-- same two in the working directory.
abbrev pub named_file : Option Bytes → List Bytes
named_file none = []
named_file (some path) = path ∷ []

abbrev pub files_in : Option Bytes → List Bytes
files_in none = []
files_in (some dir) =
    if leb 1024 (length dir)
    then []
    else (dir ++ codes "/japlus_real_i386.so") ∷ (dir ++ codes "/jampgamei386.so") ∷ []

abbrev pub candidates : Linker → ℕ → List Bytes
candidates l self =
    named_file (l.variable (codes "JAPLUS_REAL"))
    ++ (files_in (own_directory (l.module_of self))
        ++ codes "./japlus_real_i386.so" ∷ codes "./jampgamei386.so" ∷ [])

-- No name of a candidate is cut.
candidate_whole :
    (dir name : Bytes)
    → length dir < 1024
    → length name ≤ 20
    → candidate dir name ≡ dir ++ b'/' ∷ name
candidate_whole dir name h k = take_all 1151 (dir ++ b'/' ∷ name) (rw length-append (omega arith))

or_try_assoc : (a b c : Option Real) → or_try (or_try a b) c ≡ or_try a (or_try b c)
or_try_assoc none b c = refl
or_try_assoc (some r) b c = refl

or_try-none : (a : Option Real) → or_try a none ≡ a
or_try-none none = refl
or_try-none (some r) = refl

first_real-append :
    (l : Linker) (self : ℕ) (a b : List Bytes)
    → first_real l self (a ++ b) ≡ or_try (first_real l self a) (first_real l self b)
unfolding first_real
first_real-append l self [] b = refl
first_real-append l self (x ∷ a) b =
    ap (or_try (try_adopt_real l self x)) (first_real-append l self a b)
    ∙ sym (or_try_assoc (try_adopt_real l self x) (first_real l self a) (first_real l self b))

from_variable-first :
    (l : Linker) (self : ℕ) (o : Option Bytes)
    → from_variable l self o ≡ first_real l self (named_file o)
unfolding first_real try_adopt_real
from_variable-first l self none = refl
from_variable-first l self (some []) = refl
from_variable-first l self (some (c ∷ path)) = sym (or_try-none _)

in_directory-first :
    (l : Linker) (self : ℕ) (o : Option Bytes)
    → in_directory l self o ≡ first_real l self (files_in o)
unfolding first_real
in_directory-first l self none = refl
in_directory-first l self (some dir) = elim (Bool-cases (leb 1024 (length dir))) [
  | inl long ↦ rw long refl
  | inr short ↦
      let room : length dir < 1024 = ground arith in
      rw short (
        rw (
          candidate_whole dir (codes "japlus_real_i386.so") room (omega arith),
          candidate_whole dir (codes "jampgamei386.so") room (omega arith),
          or_try-none,
        ))
]

pub search_real-first :
    (l : Linker) (self : ℕ) → search_real l self ≡ first_real l self (candidates l self)
unfolding search_real try_adopt_real_next_to_self
search_real-first l self =
    let named = named_file (l.variable (codes "JAPLUS_REAL")) in
    let beside = files_in (own_directory (l.module_of self)) in
    let here : List Bytes = codes "./japlus_real_i386.so" ∷ codes "./jampgamei386.so" ∷ [] in
    rw
      (
        first_real-append l self named (beside ++ here),
        first_real-append l self beside here,
        from_variable-first l self (l.variable (codes "JAPLUS_REAL")),
        in_directory-first l self (own_directory (l.module_of self)),
      )
      (unfold first_real in rw or_try-none)

module _ (l : Linker) (p : Platform) (d : Detours) (self : ℕ) where
  adopted-real : (o : Option Real) (s : Proxy) → s.real ≡ none → (adopted l p d self o s).real ≡ o
  adopted-real none s e = e
  adopted-real (some r) s e = elim (Bool-cases s.patches_done) [
    | inl done ↦ rw done refl
    | inr first ↦ rw first refl
  ]

  pub load_real_empty :
      (s : Proxy)
      → s.real ≡ none
      → load_real l p d self s ≡ adopted l p d self (search_real l self) s
  unfolding load_real
  load_real_empty s e = ap (λ o. unless_loaded l p d self o s) e

  pub load_real_loaded : (s : Proxy) (r : Real) → s.real ≡ some r → load_real l p d self s ≡ s
  unfolding load_real
  load_real_loaded s r e = ap (λ o. unless_loaded l p d self o s) e

  -- Where no library is loaded, LoadReal adopts the first of the candidates that TryAdoptReal adopts.
  pub load_real-first :
      (s : Proxy)
      → s.real ≡ none
      → (load_real l p d self s).real ≡ first_real l self (candidates l self)
  load_real-first s e =
      ap (λ x. x.real) (load_real_empty s e)
      ∙ adopted-real (search_real l self) s e
      ∙ search_real-first l self

  adopted_again :
      (o : Option Real) (s : Proxy)
      → s.real ≡ none
      → search_real l self ≡ o
      → load_real l p d self (adopted l p d self o s) ≡ adopted l p d self o s
  unfolding load_real
  adopted_again none s e f = rw (e, f) refl
  adopted_again (some r) s e f = elim (Bool-cases s.patches_done) [
    | inl done ↦ rw done refl
    | inr first ↦ rw first refl
  ]

  -- A second LoadReal changes nothing: one library is adopted, and the hooks are installed once.
  pub load_real_twice :
      (s : Proxy) → load_real l p d self (load_real l p d self s) ≡ load_real l p d self s
  load_real_twice s = of_real s.real refl
    where
      of_real :
          (o : Option Real)
          → s.real ≡ o
          → load_real l p d self (load_real l p d self s) ≡ load_real l p d self s
      of_real none e = rw (load_real_empty s e) (adopted_again (search_real l self) s e refl)
      of_real (some r) e = ap (load_real l p d self) (load_real_loaded s r e)
