-- ===== src/Info/Pairs.antt =====
-- Info strings as lists of pairs: the abstract view, and how a printed list is read back.
use japlusproxy.Prelude.{
  ◌≤◌, ◌≡◌, ◌≢◌, refl, Bytes, Option, none, some, List, [], ◌∷◌, ◌++◌, arith, length, length-append,
  if◌then◌else◌,
}
use japlusproxy.Info.{until_slash, from_slash, same_key, next_pair, pair_bytes}

abbrev pub NoSlash : Bytes → Type 0
NoSlash [] = Unit
NoSlash (c ∷ s) = (c ≢ b'\\') × NoSlash s

abbrev pub Pairs : Type 0
Pairs = List (Bytes × Bytes)

abbrev pub AllClean : Pairs → Type 0
AllClean [] = Unit
AllClean ((k, v) ∷ ps) = NoSlash k × NoSlash v × AllClean ps

abbrev pub render : Pairs → Bytes
render [] = []
render ((k, v) ∷ ps) = pair_bytes k (v ++ render ps)

-- The first value under a key, up to case.
unfoldable pub lookup : Bytes → Pairs → Option Bytes
lookup key [] = none
lookup key ((k, v) ∷ ps) = let rest = lookup key ps in if same_key k key then some v else rest

unfoldable pub without : Bytes → Pairs → Pairs
without key [] = []
without key ((k, v) ∷ ps) =
    let rest = without key ps in if same_key k key then rest else (k, v) ∷ rest

until_slash-append : (k r : Bytes) → NoSlash k → until_slash (k ++ b'\\' ∷ r) ≡ k
unfolding until_slash
until_slash-append [] r n = refl
until_slash-append (c ∷ k) r n = ground (arith, until_slash-append k r n.1)

from_slash-append : (k r : Bytes) → NoSlash k → from_slash (k ++ b'\\' ∷ r) ≡ b'\\' ∷ r
unfolding from_slash
from_slash-append [] r n = refl
from_slash-append (c ∷ k) r n = ground (arith, from_slash-append k r n.1)

until_slash-render : (v : Bytes) (ps : Pairs) → NoSlash v → until_slash (v ++ render ps) ≡ v
unfolding until_slash
until_slash-render [] [] n = refl
until_slash-render (c ∷ v) [] n = ground (arith, until_slash-render v [] n.1)
until_slash-render v ((k, w) ∷ ps) n = until_slash-append v _ n

from_slash-render : (v : Bytes) (ps : Pairs) → NoSlash v → from_slash (v ++ render ps) ≡ render ps
unfolding from_slash
from_slash-render [] [] n = refl
from_slash-render (c ∷ v) [] n = ground (arith, from_slash-render v [] n.1)
from_slash-render v ((k, w) ∷ ps) n = from_slash-append v _ n

-- The parser takes a printed pair apart.
pub next_pair-render :
    (k v : Bytes) (ps : Pairs)
    → NoSlash k
    → NoSlash v
    → next_pair (render ((k, v) ∷ ps)) ≡ some (record { key = k; value = v; rest = render ps })
unfolding next_pair
next_pair-render k v ps nk nv = rw (
  from_slash-append k (v ++ render ps) nk,
  until_slash-append k (v ++ render ps) nk,
  until_slash-render v ps nv,
  from_slash-render v ps nv,
)

pub length-render : (ps : Pairs) → length ps ≤ length (render ps)
length-render [] = omega arith
length-render ((k, v) ∷ ps) = omega (
  arith,
  length-render ps,
  length-append k (b'\\' ∷ (v ++ render ps)),
  length-append v (render ps),
)
