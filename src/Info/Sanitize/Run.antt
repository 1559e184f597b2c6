-- ===== src/Info/Sanitize/Run.antt =====
-- All the steps of SanitizeUserinfo in turn, and what each key reads as in the end.
use japlusproxy.Prelude.{
  or-false, ◌+◌, ◌*◌, ◌≤◌, ◌<◌, ◌≡◌, refl, ◌∙◌, Bytes, Bool, false, Option, none, some, List, [],
  ◌∷◌, arith, length,
}
use japlusproxy.Info.{same_key, info_value}
use japlusproxy.Info.Pairs.{lookup}
use japlusproxy.Info.Parse.{pairs_of}
use japlusproxy.Info.Parse.Reads.{info_value_lem}
use japlusproxy.Info.Sanitize.{Step, fix_value, fix_key, run_steps, value_size}
use japlusproxy.Info.Sanitize.Safe.{IsSound, Reads, fix_key-StepResult}

-- The steps, each with what its value should be.
abbrev pub Policy : Type 1
Policy = List (Step × (Bytes → Type 0))

abbrev steps_of : Policy → List Step
steps_of [] = []
steps_of ((s, good) ∷ rest) = s ∷ steps_of rest

-- No step of the policy is about the key.
abbrev pub IsFresh : Bytes → Policy → Type 0
IsFresh key [] = Unit
IsFresh key ((s, good) ∷ rest) = (same_key s.key key ≡ false) × IsFresh key rest

abbrev pub AllSound : Policy → Type 0
AllSound [] = Unit
AllSound ((s, good) ∷ rest) = IsSound s good × IsFresh s.key rest × AllSound rest

-- What Info_Value reads under the keys of a policy is as wanted, where it finds the key.
abbrev pub AllRead : Policy → Bytes → Type 0
AllRead [] ui = Unit
AllRead ((s, good) ∷ rest) ui = Reads good (info_value ui s.key value_size) × AllRead rest ui

pub record RunResult (policy : Policy) (ui out : Bytes) : Type 0 where
  pub reads : AllRead policy out
  pub others : (j : Bytes) → IsFresh j policy → lookup j (pairs_of out) ≡ lookup j (pairs_of ui)
  pub grown : length out ≤ length ui + 77 * length policy

pub run_steps-RunResult :
    (policy : Policy) (ui : Bytes)
    → AllSound policy
    → length ui + 77 * length policy < 2047
    → RunResult policy ui (run_steps (steps_of policy) ui).0
unfolding run_steps
run_steps-RunResult [] ui sound fit = record {
  reads = tt;
  others = λ j f. refl;
  grown = omega arith;
}
run_steps-RunResult ((s, good) ∷ rest) ui (this, fresh, sound) fit =
    let next = (fix_key s.key s.bad s.new ui).0 in
    let r = fix_key-StepResult s good this ui (omega arith) in
    let later = run_steps-RunResult rest next sound (omega (arith, r.grown)) in
    let out = (run_steps (steps_of rest) next).0 in
    let here : Reads good (info_value out s.key value_size) =
      rw (info_value_lem out s.key value_size, later.others s.key fresh) r.reads in
    record {
      reads = (here, later.reads);
      others = λ j f. later.others j f.1 ∙ r.others j f.0;
      grown = omega (arith, r.grown, later.grown);
    }

-- A run that changes nothing leaves the string.
fix_key_unchanged :
    (key : Bytes) (bad : Bytes → Bool) (new : Bytes → Bytes) (ui : Bytes)
    → (fix_key key bad new ui).1 ≡ false
    → (fix_key key bad new ui).0 ≡ ui
unfolding fix_key
fix_key_unchanged key bad new ui h = by_value (info_value ui key value_size) h
  where
    by_value :
        (o : Option Bytes)
        → (fix_value key bad new ui o).1 ≡ false
        → (fix_value key bad new ui o).0 ≡ ui
    by_value none k = refl
    by_value (some v) k = ground arith

pub run_steps_unchanged :
    (todo : List Step) (ui : Bytes) → (run_steps todo ui).1 ≡ false → (run_steps todo ui).0 ≡ ui
unfolding run_steps
run_steps_unchanged [] ui h = refl
run_steps_unchanged (s ∷ rest) ui h =
    let (first, others) =
      or-false (fix_key s.key s.bad s.new ui).1 (run_steps rest (fix_key s.key s.bad s.new ui).0).1
        h in
    run_steps_unchanged rest (fix_key s.key s.bad s.new ui).0 others
    ∙ fix_key_unchanged s.key s.bad s.new ui first
