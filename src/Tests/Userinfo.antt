-- ===== src/Tests/Userinfo.antt =====
-- Info strings, names and a userinfo with two bad keys.
use japlusproxy.Prelude.{
  ◌+◌, some, ◌≤◌, ◌<◌, ◌≡◌, ◌≢◌, ◌↔◌, refl, ℕ, Bytes, false, codes, [], ◌∷◌, arith, length, ◌==◌,
  if◌then◌else◌,
}
use japlusproxy.Info.{
  until_slash, from_slash, same_key, next_pair, value_from, info_value, copy_pair, copy_others,
  append_pair, info_set,
}
use japlusproxy.Text.{str_case_eq}
use japlusproxy.Info.Pairs.{Pairs, AllClean, render}
use japlusproxy.Info.Laws.{update}
use japlusproxy.Info.Parse.{pairs_of}
use japlusproxy.Info.Parse.Grammar.{IsReading}
use japlusproxy.Info.Parse.Reads.{info_value-IsReading}
use japlusproxy.Info.Parse.Writes.{info_set_lem}
use japlusproxy.Info.Map.{contents}
use japlusproxy.Info.Map.Runs.{set_all, IsApart, IsApart-prop, set_all-Perm}
use mathlib.Core.List.{Pairwise, forall_mem-cons, not-mem-nil}
use mathlib.Core.List.Perm
use japlusproxy.Info.Names.{is_ascii_clean, clean_name}
use japlusproxy.Info.Names.Clean.{AllKept, cleaning, clean_name_lem, clean_name-AllKept}
use japlusproxy.Info.Sanitize.{
  kick, clean, fixed, is_bad_model, is_bad_force, same_bytes, sanitize_userinfo,
}
use japlusproxy.Info.Sanitize.Run.{IsFresh, AllRead}
use japlusproxy.Info.Sanitize.Force.{IsForce, is_bad_force_iff}
use japlusproxy.Info.Sanitize.Game.{policy, result_of, sanitize_userinfo-AllRead}

abbrev pairs : Pairs
pairs =
    (codes "name", codes "**^1Luke")
    ∷ (codes "model", codes "RANCOR")
    ∷ (codes "rate", codes "5000")
    ∷ []

pairs-AllClean : AllClean pairs
pairs-AllClean = ground arith

clean_name_lem_example : clean_name (codes " ^1^2") 512 ≡ (
    if length (cleaning (codes " ^1^2") 512).out == 0
    then codes "Padawan"
    else (cleaning (codes " ^1^2") 512).out)
clean_name_lem_example = clean_name_lem (codes " ^1^2") 512 (omega arith)

-- A name of colour codes alone is kept.
keeps_colours : clean_name (codes " ^1^2") 512 ≡ codes "^1^2"
unfolding clean_name
keeps_colours = refl

clean_name-AllKept_example :
    AllKept (clean_name (codes "* Luke   S.") 512)
    × (0 < length (clean_name (codes "* Luke   S.") 512))
    × (length (clean_name (codes "* Luke   S.") 512) ≤ 63)
clean_name-AllKept_example = clean_name-AllKept (codes "* Luke   S.") 512 (omega arith)

pairs_fixed :
    sanitize_userinfo (render pairs) ≡ fixed (codes "\\rate\\5000\\model\\kyle\\name\\^1Luke")
unfolding sanitize_userinfo info_value value_from next_pair from_slash same_key until_slash
    str_case_eq is_bad_model info_set append_pair copy_others copy_pair same_bytes clean_name
pairs_fixed = refl

-- The test for the cheat model compares 12 of its 13 letters, so this userinfo passes as it is.
cheater_passes : sanitize_userinfo (codes "\\model\\darksidetools") ≡ clean
unfolding sanitize_userinfo info_value value_from next_pair from_slash same_key until_slash
    str_case_eq same_bytes clean_name is_bad_model is_ascii_clean
cheater_passes = refl

pairs_kept : sanitize_userinfo (render pairs) ≢ kick
pairs_kept = λ p. cc (p, pairs_fixed)

sanitize_userinfo-AllRead_example :
    AllRead policy (result_of (render pairs) (sanitize_userinfo (render pairs)))
    × ((j : Bytes) (n : ℕ)
        → IsFresh j policy
        → info_value (result_of (render pairs) (sanitize_userinfo (render pairs))) j n
          ≡ info_value (render pairs) j n)
    × (length (result_of (render pairs) (sanitize_userinfo (render pairs)))
        ≤ length (render pairs) + 89)
sanitize_userinfo-AllRead_example =
    sanitize_userinfo-AllRead (render pairs) (omega arith) pairs_kept

-- No pair can be taken off the end: the last key has no value.
abbrev torn : Bytes
torn = codes "\\rate\\5000\\Model\\rancor\\name"

info_value-IsReading_example : IsReading torn (codes "model") 5 (info_value torn (codes "model") 5)
info_value-IsReading_example = info_value-IsReading torn (codes "model") 5

-- The value is cut to the buffer, which keeps a byte for the NUL.
reads_cut : info_value torn (codes "model") 5 ≡ some (codes "ranc")
unfolding info_value value_from next_pair from_slash same_key until_slash
reads_cut = refl

info_set_lem_example :
    info_set torn 2048 (codes "model") (codes "kyle")
    ≡ render (update (codes "model") (codes "kyle") (pairs_of torn))
info_set_lem_example = info_set_lem torn (codes "model") (codes "kyle") (omega arith)

-- The torn end is lost.
sets_torn : info_set torn 2048 (codes "model") (codes "kyle") ≡ codes "\\rate\\5000\\model\\kyle"
unfolding info_set append_pair copy_others copy_pair next_pair from_slash same_key until_slash
sets_torn = refl

is_bad_force_iff_example :
    (is_bad_force (codes "7-1-030000000000003332") ≡ false)
    ↔ IsForce (codes "7-1-030000000000003332")
is_bad_force_iff_example = is_bad_force_iff (codes "7-1-030000000000003332")

-- Three settings of a torn string, and the same the other way round.
abbrev settings : Pairs
settings = (codes "Rate", codes "25000") ∷ (codes "model", codes "kyle") ∷ (codes "name", []) ∷ []

abbrev turned : Pairs
turned = (codes "model", codes "kyle") ∷ (codes "Rate", codes "25000") ∷ (codes "name", []) ∷ []

settings-Apart : Pairwise IsApart settings
unfolding same_key
settings-Apart =
    Pairwise.cons
      ((forall_mem-cons (IsApart-prop (codes "Rate", codes "25000"))).1 (
        refl,
        (forall_mem-cons (IsApart-prop (codes "Rate", codes "25000"))).1
            (refl, λ x m. absurd (not-mem-nil m)),
      ))
      (Pairwise.cons
        ((forall_mem-cons (IsApart-prop (codes "model", codes "kyle"))).1
          (refl, λ x m. absurd (not-mem-nil m)))
        (Pairwise.cons (λ x m. absurd (not-mem-nil m)) Pairwise.nil))

set_all-Perm_example :
    (contents (set_all torn settings) ≡ contents (set_all torn turned))
    × ((q : Bytes) (n : ℕ)
        → info_value (set_all torn settings) q n ≡ info_value (set_all torn turned) q n)
set_all-Perm_example =
    set_all-Perm torn settings turned
      (Perm.swap (codes "model", codes "kyle") (codes "Rate", codes "25000")
        ((codes "name", []) ∷ []))
      settings-Apart (ground arith) (omega arith)
