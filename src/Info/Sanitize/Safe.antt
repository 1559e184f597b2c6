-- ===== src/Info/Sanitize/Safe.antt =====
-- What the game reads from a userinfo that went through SanitizeUserinfo.
use japlusproxy.Prelude.{
  ℕ, zero, suc, ◌+◌, ◌≤◌, ◌<◌, ◌≡◌, ◌⊎◌, inl, inr, refl, ap, ◌∙◌, Bytes, false, Option, none, some,
  [], ◌∷◌, arith, length, take, take_all, Bool-cases,
}
use japlusproxy.Info.{same_key, info_set, cut_value}
use japlusproxy.Info.Pairs.{NoSlash, Pairs, AllClean, lookup}
use japlusproxy.Info.Laws.{some_value, lookup-update_self, lookup-update_other}
use japlusproxy.Info.Parse.{pairs_of, pairs_of-AllClean}
use japlusproxy.Info.Parse.Reads.{info_value_lem}
use japlusproxy.Info.Parse.Writes.{pairs_of-info_set, length-info_set}
use japlusproxy.Info.Sanitize.{Step, fix_value, fix_key, value_size, userinfo_size}

-- A step whose new values are short, have no backslash, and are empty or as wanted.
pub record IsSound (s : Step) (Good : Bytes → Type 0) : Type 0 where
  pub accepts : (v : Bytes) → s.bad v ≡ false → Good v
  pub repairs : (v : Bytes) → (s.new v ≡ []) ⊎ Good (s.new v)
  pub new_clean : (v : Bytes) → NoSlash v → NoSlash (s.new v)
  pub new_short : (v : Bytes) → length (s.new v) ≤ 63
  pub key_clean : NoSlash s.key
  pub key_short : length s.key ≤ 12

-- What is read under a key is as wanted, if there is anything.
abbrev pub Reads : (Bytes → Type 0) → Option Bytes → Type 0
Reads Good none = Unit
Reads Good (some v) = Good v

abbrev pub read_at : Bytes → Pairs → Option Bytes
read_at key ps = cut_value value_size (lookup key ps)

take-NoSlash : (n : ℕ) (v : Bytes) → NoSlash v → NoSlash (take n v)
take-NoSlash zero v h = tt
take-NoSlash (suc n) [] h = tt
take-NoSlash (suc n) (c ∷ v) h = (h.0, take-NoSlash n v h.1)

lookup-NoSlash :
    (key : Bytes) (ps : Pairs) (v : Bytes) → AllClean ps → lookup key ps ≡ some v → NoSlash v
unfolding lookup
lookup-NoSlash key [] v c h = cc
lookup-NoSlash key ((k, w) ∷ ps) v c h = elim (Bool-cases (same_key k key)) [
  | inl same ↦ let found : w ≡ v = ground arith in rw found at c.1
  | inr other ↦ lookup-NoSlash key ps v c.2 (ground arith)
]

-- What a step leaves behind of a string.
pub record StepResult (key : Bytes) (Good : Bytes → Type 0) (ui out : Bytes) : Type 0 where
  pub grown : length out ≤ length ui + 77
  pub reads : Reads Good (read_at key (pairs_of out))
  pub others :
      (j : Bytes) → same_key key j ≡ false → lookup j (pairs_of out) ≡ lookup j (pairs_of ui)

read-NoSlash :
    (key : Bytes) (ps : Pairs) (v : Bytes) → AllClean ps → read_at key ps ≡ some v → NoSlash v
read-NoSlash key ps v c h = cut_of (lookup key ps) refl h
  where
    cut_of : (o : Option Bytes) → lookup key ps ≡ o → cut_value value_size o ≡ some v → NoSlash v
    cut_of none e k = cc
    cut_of (some w) e k =
        let same : take 511 w ≡ v = ground arith in
        rw same at (take-NoSlash 511 w (lookup-NoSlash key ps w c e))

module _ (s : Step) (Good : Bytes → Type 0) (sound : IsSound s Good) where
  Reads-new :
      (w : Bytes)
      → (w ≡ []) ⊎ Good w
      → length w ≤ 63
      → Reads Good (cut_value value_size (some_value w))
  Reads-new [] g h = tt
  Reads-new (c ∷ w) (inl e) h = absurd (cc e)
  Reads-new (c ∷ w) (inr g) h = rw (take_all 510 w (omega arith)) g

  module _ (ui : Bytes) (fit : length ui + 77 < 2047) where
    StepResult-kept : Reads Good (read_at s.key (pairs_of ui)) → StepResult s.key Good ui ui
    StepResult-kept r = record { grown = omega arith; reads = r; others = λ j ne. refl }

    StepResult-new :
        (v : Bytes)
        → NoSlash v
        → StepResult s.key Good ui (info_set ui userinfo_size s.key (s.new v))
    StepResult-new v n =
        let roomy : length ui + (2 + length s.key + length (s.new v)) < 2047 =
          omega (arith, sound.new_short v, sound.key_short) in
        let became =
          pairs_of-info_set ui s.key (s.new v) sound.key_clean (sound.new_clean v n) roomy in
        record {
          grown =
              omega (
                arith,
                length-info_set ui s.key (s.new v) roomy,
                sound.new_short v,
                sound.key_short,
              );
          reads =
              rw (became, lookup-update_self)
                (Reads-new (s.new v) (sound.repairs v) (sound.new_short v));
          others =
              λ j ne. ap (lookup j) became ∙ lookup-update_other s.key j (s.new v) (pairs_of ui) ne;
        }

    step_on :
        (o : Option Bytes)
        → read_at s.key (pairs_of ui) ≡ o
        → StepResult s.key Good ui (fix_value s.key s.bad s.new ui o).0
    step_on none e = StepResult-kept (rw e tt)
    step_on (some v) e = elim (Bool-cases (s.bad v)) [
      | inl bad ↦
          rw bad (StepResult-new v (read-NoSlash s.key (pairs_of ui) v (pairs_of-AllClean ui) e))
      | inr fine ↦ rw fine (StepResult-kept (rw e (sound.accepts v fine)))
    ]

    pub fix_key-StepResult : StepResult s.key Good ui (fix_key s.key s.bad s.new ui).0
    unfolding fix_key
    fix_key-StepResult =
        rw (info_value_lem ui s.key value_size) (step_on (read_at s.key (pairs_of ui)) refl)
