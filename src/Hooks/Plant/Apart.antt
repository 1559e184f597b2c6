-- ===== src/Hooks/Plant/Apart.antt =====
-- Hooks whose prefixes do not overlap, and the inventory that holds them.
use japlusproxy.Prelude.{
  ℕ, ◌+◌, ◌-◌, ◌≤◌, ◌<◌, ◌≡◌, ◌≢◌, ◌⊎◌, inl, inr, Bytes, List, [], ◌∷◌, ◌++◌, arith, length, get_or,
}
use japlusproxy.Memory.{Memory}
use japlusproxy.Hooks.Patch.{Platform}
use japlusproxy.Hooks.Jumps.Elsewhere.{Unmapped}
use japlusproxy.Hooks.Inventory.{Entry}
use japlusproxy.Hooks.Plant.Restore.{Covered, AllSaved}

-- A hook to plant.
pub record Hook : Type 0 where
  pub name : Bytes
  pub addr : ℕ
  pub len : ℕ
  pub detour : ℕ

-- Two blocks with no common address.
abbrev pub Apart : ℕ → ℕ → ℕ → ℕ → Type 0
Apart a n b m = (a + n ≤ b) ⊎ (b + m ≤ a)

-- The prefix is one that the inventory takes, and no part of it is mapped anew.
abbrev pub IsFit : Platform → Hook → Type 0
IsFit p h = (0 < h.len) × (h.len ≤ 8) × ((x : ℕ) → h.addr ≤ x → x < h.addr + h.len → Unmapped p x)

abbrev pub ApartFrom : Hook → List Hook → Type 0
ApartFrom h [] = Unit
ApartFrom h (k ∷ ks) = Apart h.addr h.len k.addr k.len × ApartFrom h ks

abbrev pub AllFit : Platform → List Hook → Type 0
AllFit p [] = Unit
AllFit p (h ∷ hs) = IsFit p h × ApartFrom h hs × AllFit p hs

abbrev pub EntriesApart : List Entry → Hook → Type 0
EntriesApart [] h = Unit
EntriesApart (e ∷ es) h = Apart e.target (length e.orig) h.addr h.len × EntriesApart es h

abbrev pub AllApart : List Entry → List Hook → Type 0
AllApart es [] = Unit
AllApart es (h ∷ hs) = EntriesApart es h × AllApart es hs

pub Covered-apart :
    (es : List Entry) (h : Hook) (x : ℕ)
    → EntriesApart es h
    → Covered x es
    → h.addr ≤ x
    → x < h.addr + h.len
    → ⊥
Covered-apart [] h x apart c lo hi = c
Covered-apart (e ∷ es) h x (inl before, rest) (inl inside) lo hi = absurd (omega arith)
Covered-apart (e ∷ es) h x (inr behind, rest) (inl inside) lo hi = absurd (omega arith)
Covered-apart (e ∷ es) h x (this, rest) (inr other) lo hi = Covered-apart es h x rest other lo hi

pub Covered-append_left :
    (es : List Entry) (e : Entry) (x : ℕ) → Covered x es → Covered x (es ++ e ∷ [])
Covered-append_left [] e x c = absurd c
Covered-append_left (y ∷ es) e x (inl here) = inl here
Covered-append_left (y ∷ es) e x (inr later) = inr (Covered-append_left es e x later)

pub Covered-append_right :
    (es : List Entry) (e : Entry) (x : ℕ)
    → e.target ≤ x
    → x < e.target + length e.orig
    → Covered x (es ++ e ∷ [])
Covered-append_right [] e x lo hi = inl (lo, hi)
Covered-append_right (y ∷ es) e x lo hi = inr (Covered-append_right es e x lo hi)

EntriesApart-append :
    (es : List Entry) (e : Entry) (h : Hook)
    → EntriesApart es h
    → Apart e.target (length e.orig) h.addr h.len
    → EntriesApart (es ++ e ∷ []) h
EntriesApart-append [] e h a b = (b, tt)
EntriesApart-append (y ∷ es) e h a b = (a.0, EntriesApart-append es e h a.1 b)

pub AllApart-append :
    (es : List Entry) (e : Entry) (hs : List Hook) (h : Hook)
    → AllApart es hs
    → e.target ≡ h.addr
    → length e.orig ≡ h.len
    → ApartFrom h hs
    → AllApart (es ++ e ∷ []) hs
AllApart-append es e [] h a t l b = tt
AllApart-append es e (k ∷ ks) h a t l b =
    (EntriesApart-append es e k a.0 (rw (t, l) b.0), AllApart-append es e ks h a.1 t l b.1)

pub AllSaved-append :
    (orig : Memory) (es : List Entry) (e : Entry)
    → AllSaved orig es
    → e.target ≢ 0
    → ((x : ℕ)
        → e.target ≤ x
        → x < e.target + length e.orig
        → get_or e.orig (x - e.target) 0 ≡ orig x)
    → AllSaved orig (es ++ e ∷ [])
AllSaved-append orig [] e a ne b = (ne, b, tt)
AllSaved-append orig (y ∷ es) e a ne b = (a.0, a.1, AllSaved-append orig es e a.2 ne b)

pub AllApart-nil : (hs : List Hook) → AllApart [] hs
AllApart-nil [] = tt
AllApart-nil (h ∷ hs) = (tt, AllApart-nil hs)
