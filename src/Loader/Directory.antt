-- ===== src/Loader/Directory.antt =====
-- The directory of the proxy's own file, which TryAdoptRealNextToSelf of proxy/proxy.c finds with
-- strrchr, described without that search.
use japlusproxy.Prelude.{
  ℕ, ◌<◌, ◌≡◌, ◌≢◌, refl, ap, ◌∙◌, inl, inr, Bytes, Option, none, some, [], ◌∷◌, ◌++◌, arith,
  length, leb, ◌==◌, Bool-cases, if◌then◌else◌,
}
use japlusproxy.Text.Classes.{AllOf}
use japlusproxy.Hooks.Install.{ModuleInfo, Linker}
use japlusproxy.Loader.{directory, own_directory}

-- The proxy's own file stands in the directory, whose name has fewer than 1024 bytes.
abbrev pub IsOwnDirectory : Linker → ℕ → Bytes → Type 0
IsOwnDirectory l self dir =
    (file : Bytes) × (i : ModuleInfo) × (l.module_of self ≡ some i)
    × (i.fname ≡ some (dir ++ b'/' ∷ file))
    × AllOf (λ c. c ≢ b'/') file
    × (length dir < 1024)

abbrev pub OwnDirectory : Linker → ℕ → Option Bytes → Type 0
OwnDirectory l self none = (dir : Bytes) → IsOwnDirectory l self dir → ⊥
OwnDirectory l self (some dir) = IsOwnDirectory l self dir

directory-none : (s : Bytes) → AllOf (λ c. c ≢ b'/') s → directory s ≡ none
unfolding directory
directory-none [] h = refl
directory-none (c ∷ s) h = rw (directory-none s h.1) (elim (Bool-cases (c == b'/')) [
  | inl slash ↦ absurd (h.0 (ground (arith, slash)))
  | inr other ↦ rw other refl
])

directory-append :
    (dir file : Bytes) → AllOf (λ c. c ≢ b'/') file → directory (dir ++ b'/' ∷ file) ≡ some dir
unfolding directory
directory-append [] file h = rw (directory-none file h) refl
directory-append (c ∷ dir) file h = rw (directory-append dir file h) refl

-- A string is split at its last slash, if it has one.
data IsSplit (s : Bytes) : Option Bytes → Type 0 where
  whole : AllOf (λ c. c ≢ b'/') s → IsSplit s none
  split :
      {dir : Bytes} (file : Bytes)
      → s ≡ dir ++ b'/' ∷ file
      → AllOf (λ c. c ≢ b'/') file
      → IsSplit s (some dir)

directory-IsSplit : (s : Bytes) → IsSplit s (directory s)
unfolding directory
directory-IsSplit [] = whole tt
directory-IsSplit (c ∷ s) = of_rest (directory s) (directory-IsSplit s)
  where
    of_rest :
        (o : Option Bytes)
        → IsSplit s o
        → IsSplit
            (c ∷ s)
            (elim o [ some d ↦ some (c ∷ d) | none ↦ if c == b'/' then some [] else none ])
    of_rest none (whole h) = elim (Bool-cases (c == b'/')) [
      | inl slash ↦ rw slash (split s (ap (λ x. x ∷ s) (ground (arith, slash))) h)
      | inr other ↦ rw other (whole ((λ e. ground (arith, e, other)), h))
    ]
    of_rest (some d) (split file e h) = split file (ap (λ x. c ∷ x) e) h

-- The directory that the code finds, if it has a file there to try.
abbrev pub own : Linker → ℕ → Option Bytes → Option Bytes
own l self none = none
own l self (some dir) = if leb 1024 (length dir) then none else some dir

-- Every directory of the proxy's file is the one that the code finds.
own_directory_complete :
    (l : Linker) (self : ℕ) (dir : Bytes)
    → IsOwnDirectory l self dir
    → own l self (own_directory (l.module_of self)) ≡ some dir
own_directory_complete l self dir (file, i, found, name, flat, short) =
    rw (found, name, directory-append dir file flat)
      (elim (Bool-cases (leb 1024 (length dir))) [
        | inl long ↦ absurd (ground (arith, long, short))
        | inr room ↦ rw room refl
      ])

own_directory_sound :
    (l : Linker) (self : ℕ) (dir : Bytes)
    → own l self (own_directory (l.module_of self)) ≡ some dir
    → IsOwnDirectory l self dir
own_directory_sound l self dir h = of_module (l.module_of self) refl h
  where
    of_split :
        (i : ModuleInfo) (name : Bytes) (o : Option Bytes)
        → l.module_of self ≡ some i
        → i.fname ≡ some name
        → IsSplit name o
        → own l self o ≡ some dir
        → IsOwnDirectory l self dir
    of_split i name none found named _ k = cc
    of_split i name (some d) found named (split file e flat) k =
        elim (Bool-cases (leb 1024 (length d))) [
          | inl long ↦ cc (rw long at k)
          | inr room ↦
              let inner : ◌≡◌ {A = Option Bytes} (some d) (some dir) = rw room at k in
              let same : d ≡ dir = cc inner in
              rw (← same) (file, i, found, named ∙ ap some e, flat, ground (arith, room))
        ]

    of_name :
        (i : ModuleInfo) (o : Option Bytes)
        → l.module_of self ≡ some i
        → i.fname ≡ o
        → own l self (elim o [ none ↦ none | some name ↦ directory name ]) ≡ some dir
        → IsOwnDirectory l self dir
    of_name i none found named k = cc
    of_name i (some name) found named k =
        of_split i name (directory name) found named (directory-IsSplit name) k

    of_module :
        (o : Option ModuleInfo)
        → l.module_of self ≡ o
        → own l self (own_directory o) ≡ some dir
        → IsOwnDirectory l self dir
    of_module none found k = cc
    of_module (some i) found k = of_name i i.fname found refl k

pub own_directory-OwnDirectory :
    (l : Linker) (self : ℕ) → OwnDirectory l self (own l self (own_directory (l.module_of self)))
own_directory-OwnDirectory l self = of_own (own l self (own_directory (l.module_of self))) refl
  where
    of_own :
        (o : Option Bytes)
        → own l self (own_directory (l.module_of self)) ≡ o
        → OwnDirectory l self o
    of_own none e = λ dir h. cc (own_directory_complete l self dir h, e)
    of_own (some dir) e = own_directory_sound l self dir e
