-- ===== src/Info/Map/Runs.antt =====
-- Runs of Info_Set, and why the order of their keys does not matter.
use mathlib.Core.Logic.{∥∥₁_elim}
use mathlib.Core.List.Permᴰ
use mathlib.Core.List.{Perm, Permᴰ, Pairwise, mem-cons_self}
use mathlib.Core.Quot.{Quot-set}
use japlusproxy.Prelude.{ℕ, ◌+◌, ◌<◌, ◌≡◌, refl, sym, ap, ◌∙◌, Bytes, false, [], ◌∷◌, arith, length}
use japlusproxy.Info.{same_key, info_set, info_value, cut_value}
use japlusproxy.Info.Pairs.{Pairs, AllClean}
use japlusproxy.Info.Parse.Writes.{length-info_set}
use japlusproxy.Info.Map.{
  InfoMap, put, put_comm, read, contents, contents-info_set, info_value-contents, same_key_comm,
}

-- The calls of Info_Set with a list of keys and values, one after the other.
abbrev pub set_all : Bytes → Pairs → Bytes
set_all s [] = s
set_all s ((k, v) ∷ changes) = set_all (info_set s 2048 k v) changes

abbrev pub put_all : Pairs → InfoMap → InfoMap
put_all [] m = m
put_all ((k, v) ∷ changes) m = put_all changes (put k v m)

-- What the changes can add to the length of a string.
abbrev pub size_of : Pairs → ℕ
size_of [] = 0
size_of ((k, v) ∷ changes) = (2 + length k + length v) + size_of changes

-- The string stands for what the changes make of its map.
contents-set_all :
    (s : Bytes) (changes : Pairs)
    → AllClean changes
    → length s + size_of changes < 2047
    → contents (set_all s changes) ≡ put_all changes (contents s)
contents-set_all s [] clean fit = refl
contents-set_all s ((k, v) ∷ changes) clean fit =
    contents-set_all (info_set s 2048 k v) changes clean.2
      (omega (arith, fit, length-info_set s k v (omega (arith, fit))))
    ∙ ap (put_all changes) (contents-info_set s k v clean.0 clean.1 (omega (arith, fit)))

abbrev pub IsApart : Bytes × Bytes → Bytes × Bytes → Type 0
IsApart a b = same_key a.0 b.0 ≡ false

pub IsApart-prop : (a b : Bytes × Bytes) → IsProp (IsApart a b)
IsApart-prop a b = hlevel

IsApart-sym : (a b : Bytes × Bytes) → IsApart a b → IsApart b a
IsApart-sym a b h = same_key_comm b.0 a.0 ∙ h

put_all-Permᴰ :
    {changes others : Pairs}
    → Permᴰ changes others
    → Pairwise IsApart changes
    → (m : InfoMap) → put_all changes m ≡ put_all others m
put_all-Permᴰ Permᴰ.nil apart m = refl
put_all-Permᴰ (Permᴰ.cons {b = b} e d) (Pairwise.cons h t) m =
    rw e (put_all-Permᴰ d t (put b.0 b.1 m))
put_all-Permᴰ (Permᴰ.swap {a = a} {b = b} {l = l} e f) (Pairwise.cons h t) m =
    rw (← e, ← f)
      (ap (put_all l) (put_comm b.0 b.1 a.0 a.1 m (IsApart-sym a b (h b mem-cons_self))))
put_all-Permᴰ (Permᴰ.trans d e) apart m =
    put_all-Permᴰ d apart m ∙ put_all-Permᴰ e (Permᴰ.pairwise IsApart-prop IsApart-sym d apart) m

size_of-Permᴰ : {changes others : Pairs} → Permᴰ changes others → size_of changes ≡ size_of others
size_of-Permᴰ Permᴰ.nil = refl
size_of-Permᴰ (Permᴰ.cons e d) = rw (e, size_of-Permᴰ d) refl
size_of-Permᴰ (Permᴰ.swap e f) = rw (← e, ← f) (omega arith)
size_of-Permᴰ (Permᴰ.trans d e) = size_of-Permᴰ d ∙ size_of-Permᴰ e

AllClean-Permᴰ :
    {changes others : Pairs} → Permᴰ changes others → AllClean changes → AllClean others
AllClean-Permᴰ Permᴰ.nil c = c
AllClean-Permᴰ (Permᴰ.cons e d) c = rw (← e) (c.0, c.1, AllClean-Permᴰ d c.2)
AllClean-Permᴰ (Permᴰ.swap e f) c = rw (← e, ← f) (c.2.0, c.2.1, (c.0, c.1, c.2.2))
AllClean-Permᴰ (Permᴰ.trans d e) c = AllClean-Permᴰ e (AllClean-Permᴰ d c)

contents-Permᴰ :
    (s : Bytes) (changes others : Pairs)
    → Pairwise IsApart changes
    → AllClean changes
    → length s + size_of changes < 2047
    → Permᴰ changes others
    → contents (set_all s changes) ≡ contents (set_all s others)
contents-Permᴰ s changes others apart clean fit d =
    contents-set_all s changes clean fit
    ∙ put_all-Permᴰ d apart (contents s)
    ∙ sym (contents-set_all s others (AllClean-Permᴰ d clean) (omega (arith, fit, size_of-Permᴰ d)))

-- Keys that differ, by more than case, can be set in any order: in a string with room for all of them,
-- calls of Info_Set in two orders leave strings that stand for the same map from keys to values, and
-- every key reads the same from them, whatever the buffer. Keys and values hold no backslash.
pub set_all-Perm :
    (s : Bytes) (changes others : Pairs)
    → Perm changes others
    → Pairwise IsApart changes
    → AllClean changes
    → length s + size_of changes < 2047
    → (contents (set_all s changes) ≡ contents (set_all s others))
      × ((q : Bytes) (n : ℕ)
          → info_value (set_all s changes) q n ≡ info_value (set_all s others) q n)
set_all-Perm s changes others p apart clean fit =
    let same : contents (set_all s changes) ≡ contents (set_all s others) =
      ∥∥₁_elim p (Quot-set _ _) (contents-Permᴰ s changes others apart clean fit) in
    (
      same,
      λ q n.
          info_value-contents (set_all s changes) q n
          ∙ ap (λ m. cut_value n (read q m)) same
          ∙ sym (info_value-contents (set_all s others) q n),
    )
