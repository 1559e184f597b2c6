-- ===== src/Info/Sanitize/Game.antt =====
-- The whole of SanitizeUserinfo: what the game may rely on.
use japlusproxy.Prelude.{
  ℕ, ◌+◌, ◌≤◌, ◌<◌, ◌≡◌, ◌≢◌, inl, inr, refl, sym, ap, ◌∙◌, Bytes, codes, Bool, false, [], ◌∷◌,
  arith, length, Bool-cases,
}
use japlusproxy.Text.{str_case_eq}
use japlusproxy.Info.{same_key, info_value, cut_value}
use japlusproxy.Info.Pairs.{NoSlash}
use japlusproxy.Info.Parse.Reads.{info_value_lem}
use japlusproxy.Info.Names.{is_ascii_clean}
use japlusproxy.Info.Names.Clean.{clean_name-AllKept, clean_name-NoSlash}
use japlusproxy.Info.Sanitize.{
  run_steps, steps, model_step, force_step, name_step, drop_step, is_bad_model, is_bad_force,
  is_bad_class, is_bad_saber, default_force, value_size, is_cheater, Sanitized, kick, clean, fixed,
  sanitize_userinfo,
}
use japlusproxy.Info.Sanitize.Safe.{IsSound}
use japlusproxy.Info.Sanitize.Grows.{length-steps}
use japlusproxy.Info.Sanitize.Force.{IsForce, is_bad_force_iff}
use japlusproxy.Info.Sanitize.Policy.{
  IsModel, IsCleanName, IsClass, IsSaber, is_bad_model-IsModel, is_bad_name-IsCleanName,
  is_bad_class-IsClass, is_bad_saber-IsSaber,
}
use japlusproxy.Info.Sanitize.Run.{
  Policy, IsFresh, AllSound, AllRead, run_steps-RunResult, run_steps_unchanged,
}

-- The six keys, each with its check and what the value should be.
abbrev pub policy : Policy
policy =
    (model_step, IsModel)
    ∷ (force_step, IsForce)
    ∷ (name_step, IsCleanName)
    ∷ (drop_step (codes "siegeclass") is_bad_class, IsClass)
    ∷ (drop_step (codes "saber1") is_bad_saber, IsSaber)
    ∷ (drop_step (codes "saber2") is_bad_saber, IsSaber)
    ∷ []

kyle_is_fine : is_bad_model (codes "kyle") ≡ false
unfolding is_bad_model str_case_eq is_ascii_clean
kyle_is_fine = refl

default_force_is_fine : is_bad_force default_force ≡ false
unfolding is_bad_force
default_force_is_fine = refl

model_step-IsSound : IsSound model_step IsModel
model_step-IsSound = record {
  accepts = is_bad_model-IsModel;
  repairs = λ v. inr (is_bad_model-IsModel (codes "kyle") kyle_is_fine);
  new_clean = λ v n. omega arith;
  new_short = λ v. omega arith;
  key_clean = omega arith;
  key_short = omega arith;
}

force_step-IsSound : IsSound force_step IsForce
force_step-IsSound = record {
  accepts = λ v h. (is_bad_force_iff v).0 h;
  repairs = λ v. inr ((is_bad_force_iff default_force).0 default_force_is_fine);
  new_clean = λ v n. omega arith;
  new_short = λ v. omega arith;
  key_clean = omega arith;
  key_short = omega arith;
}

name_step-IsSound : IsSound name_step IsCleanName
name_step-IsSound = record {
  accepts = is_bad_name-IsCleanName;
  repairs = λ v. inr (clean_name-AllKept v value_size (omega arith));
  new_clean = λ v n. clean_name-NoSlash v value_size (omega arith) n;
  new_short = λ v. (clean_name-AllKept v value_size (omega arith)).2;
  key_clean = omega arith;
  key_short = omega arith;
}

drop_step-IsSound :
    (key : Bytes) (bad : Bytes → Bool) (good : Bytes → Type 0)
    → ((v : Bytes) → bad v ≡ false → good v)
    → NoSlash key
    → length key ≤ 12
    → IsSound (drop_step key bad) good
drop_step-IsSound key bad good accepts key_clean key_short = record {
  accepts = accepts;
  repairs = λ v. inl refl;
  new_clean = λ v n. tt;
  new_short = λ v. omega arith;
  key_clean = key_clean;
  key_short = key_short;
}

policy-AllSound : AllSound policy
unfolding same_key
policy-AllSound = (
  model_step-IsSound,
  (refl, (refl, (refl, (refl, (refl, tt))))),
  (
    force_step-IsSound,
    (refl, (refl, (refl, (refl, tt)))),
    (
      name_step-IsSound,
      (refl, (refl, (refl, tt))),
      (
        drop_step-IsSound (codes "siegeclass") is_bad_class IsClass is_bad_class-IsClass
            (omega arith) (omega arith),
        (refl, (refl, tt)),
        (
          drop_step-IsSound (codes "saber1") is_bad_saber IsSaber is_bad_saber-IsSaber (omega arith)
              (omega arith),
          (refl, tt),
          (
            drop_step-IsSound (codes "saber2") is_bad_saber IsSaber is_bad_saber-IsSaber
                (omega arith) (omega arith),
            tt,
            tt,
          ),
        ),
      ),
    ),
  ),
)

-- The string that is set when the function returns: `ui` itself, or the new one.
abbrev pub result_of : Bytes → Sanitized → Bytes
result_of ui kick = []
result_of ui clean = ui
result_of ui (fixed new) = new

-- Without a kick, that is the string that the steps leave.
result_of_lem :
    (ui : Bytes)
    → sanitize_userinfo ui ≢ kick
    → result_of ui (sanitize_userinfo ui) ≡ (run_steps steps ui).0
unfolding sanitize_userinfo
result_of_lem ui ok = elim (Bool-cases (is_cheater (info_value ui (codes "model") value_size))) [
  | inl cheats ↦ absurd (ok (rw cheats refl))
  | inr honest ↦ elim (Bool-cases (run_steps steps ui).1) [
    | inl changed ↦ rw honest (rw changed refl)
    | inr same ↦ rw honest (rw same (sym (run_steps_unchanged steps ui same)))
  ]
]

-- Of any userinfo of fewer than 1024 bytes that does not get its client kicked, the first 511 bytes
-- that Info_Value afterwards reads under "model", "forcepowers", "name", "siegeclass", "saber1" and
-- "saber2", where there is such a key, are as `policy` wants them; what it reads under any other
-- key, and into a buffer of any size, is what it read before; and the string has at most 89 bytes
-- more than before.
pub sanitize_userinfo-AllRead :
    (ui : Bytes)
    → length ui < 1024
    → sanitize_userinfo ui ≢ kick
    → AllRead policy (result_of ui (sanitize_userinfo ui))
      × ((j : Bytes) (n : ℕ)
          → IsFresh j policy
          → info_value (result_of ui (sanitize_userinfo ui)) j n ≡ info_value ui j n)
      × (length (result_of ui (sanitize_userinfo ui)) ≤ length ui + 89)
sanitize_userinfo-AllRead ui fit ok = rw (result_of_lem ui ok) (
    let run = run_steps-RunResult policy ui policy-AllSound (omega arith) in
    let out = (run_steps steps ui).0 in
    (
      run.reads,
      λ j n f.
          info_value_lem out j n ∙ ap (cut_value n) (run.others j f) ∙ sym (info_value_lem ui j n),
      length-steps ui fit,
    ))
