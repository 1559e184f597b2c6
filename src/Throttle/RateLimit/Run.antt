-- ===== src/Throttle/RateLimit/Run.antt =====
-- A leaky bucket over a sequence of calls, at times that do not go back.
use japlusproxy.Prelude.{
  ℕ, ◌+◌, ◌-◌, ◌*◌, ◌^◌, ◌≤◌, ◌<◌, ◌≡◌, refl, Bool, true, false, List, [], ◌∷◌, arith, length,
  Bool-cases, inl, inr, if◌then◌else◌,
}
use japlusproxy.Prelude.Int.{ℤ, pos}
use japlusproxy.Throttle.RateLimit.{Meter, rate_limit}
use japlusproxy.Throttle.RateLimit.Bound.{meter, StepFacts, step_facts}

-- How many of the calls at the times `ts` are let through.
unfoldable pub served : Meter → ℤ → ℤ → List ℕ → ℕ
served m max_burst period [] = 0
served m max_burst period (t ∷ ts) =
    let (m', over) = rate_limit m max_burst period (pos t) in
    (if over then 0 else 1) + served m' max_burst period ts

-- Times from `from` on that do not go back and fit an `int`.
abbrev pub Ascending : ℕ → List ℕ → Type 0
Ascending from [] = Unit
Ascending from (t ∷ ts) = (from ≤ t) × (t < 2 ^ 31) × Ascending t ts

-- Each time is at least a period behind the one before.
abbrev pub Spaced : ℕ → ℕ → List ℕ → Type 0
Spaced p from [] = Unit
Spaced p from (t ∷ ts) = (from + p ≤ t) × (t < 2 ^ 31) × Spaced p t ts

abbrev pub last_of : ℕ → List ℕ → ℕ
last_of d [] = d
last_of d (t ∷ ts) = last_of t ts

pub Ascending-lower : {a b : ℕ} (ts : List ℕ) → a ≤ b → Ascending b ts → Ascending a ts
Ascending-lower [] h s = tt
Ascending-lower (t ∷ ts) h s = (omega arith, s.1, s.2)

pub last_of_mono : {a b : ℕ} (ts : List ℕ) → a ≤ b → last_of a ts ≤ last_of b ts
last_of_mono [] h = h
last_of_mono (t ∷ ts) h = omega arith

last_of-grows : (a : ℕ) (ts : List ℕ) → Ascending a ts → a ≤ last_of a ts
last_of-grows a [] s = omega arith
last_of-grows a (t ∷ ts) s = omega (arith, last_of-grows t ts s.2)

Spaced-lower : (p : ℕ) {a b : ℕ} (ts : List ℕ) → a ≤ b → Spaced p b ts → Spaced p a ts
Spaced-lower p [] h s = tt
Spaced-lower p (t ∷ ts) h s = (omega arith, s.1, s.2)

le-mul : (b p : ℕ) → 0 < b → p ≤ b * p
le-mul b p h = grind arith

cost : (over : Bool) (n p : ℕ) → ((if over then 0 else 1) + n) * p ≡ (if over then 0 else p) + n * p
cost true n p = omega arith
cost false n p = omega arith

module _ (mb p : ℕ) (hp : 0 < p) (hm : 0 < mb) (small : mb < 2 ^ 31) where
  served_potential :
      (b l : ℕ) (ts : List ℕ)
      → b ≤ mb
      → Ascending l ts
      → served (meter b l) (pos mb) (pos p) ts * p + b * p + l ≤ mb * p + last_of l ts
  unfolding served
  served_potential b l [] hb s = grind arith
  served_potential b l (t ∷ ts) hb s =
      let f = step_facts b l mb p t hp hm hb small s.0 s.1 in
      rw f.result (
        let ih =
          served_potential f.burst' f.last' ts f.capped (Ascending-lower ts f.not_later s.2) in
        omega (
          arith,
          cost f.over (served (meter f.burst' f.last') (pos mb) (pos p) ts) p,
          f.paid,
          ih,
          last_of_mono ts f.not_later,
        ))

  first_paid :
      {b l t : ℕ} (f : StepFacts b l mb p t)
      → (if f.over then 0 else p) + t < f.burst' * p + f.last' + p
  first_paid f = elim (Bool-cases f.over) [
    | inl over ↦ rw over (omega (arith, f.recent))
    | inr served ↦ rw served (omega (arith, f.recent, le-mul f.burst' p (f.counted served)))
  ]

  -- From any state of the bucket, the calls let through at `t` and the times `ts` after it are
  -- fewer than one more than the burst allows and the periods between `t` and the last of `ts`.
  pub served_window :
      (b l t : ℕ) (ts : List ℕ)
      → b ≤ mb
      → Ascending l (t ∷ ts)
      → served (meter b l) (pos mb) (pos p) (t ∷ ts) * p < mb * p + p + (last_of t ts - t)
  unfolding served
  served_window b l t ts hb s =
      let f = step_facts b l mb p t hp hm hb small s.0 s.1 in
      rw f.result (
        let ih =
          served_potential f.burst' f.last' ts f.capped (Ascending-lower ts f.not_later s.2) in
        omega (
          arith,
          cost f.over (served (meter f.burst' f.last') (pos mb) (pos p) ts) p,
          first_paid f,
          ih,
          last_of_mono ts f.not_later,
          last_of-grows t ts s.2,
        ))

  -- A sender that waits a period between its calls is never limited.
  pub served-Spaced :
      (b l : ℕ) (ts : List ℕ)
      → b ≤ mb
      → Spaced p l ts
      → served (meter b l) (pos mb) (pos p) ts ≡ length ts
  unfolding served
  served-Spaced b l [] hb s = refl
  served-Spaced b l (t ∷ ts) hb s =
      let f = step_facts b l mb p t hp hm hb small (omega arith) s.1 in
      rw (f.result, f.served_if_spaced (omega arith))
        (omega
          (arith, served-Spaced f.burst' f.last' ts f.capped (Spaced-lower p ts f.not_later s.2)))

  -- Nor if there was room for its first call.
  pub served-Spaced_first :
      (b l t : ℕ) (ts : List ℕ)
      → b < mb
      → l ≤ t
      → t < 2 ^ 31
      → Spaced p t ts
      → served (meter b l) (pos mb) (pos p) (t ∷ ts) ≡ 1 + length ts
  unfolding served
  served-Spaced_first b l t ts room on fits s =
      let f = step_facts b l mb p t hp hm (omega arith) small on fits in
      rw (f.result, f.kept_room room)
        (omega
          (arith, served-Spaced f.burst' f.last' ts f.capped (Spaced-lower p ts f.not_later s)))

  -- As many calls as there is room in the bucket are let through, however fast they come.
  pub served_burst :
      (b l : ℕ) (ts : List ℕ)
      → b + length ts ≤ mb
      → Ascending l ts
      → served (meter b l) (pos mb) (pos p) ts ≡ length ts
  unfolding served
  served_burst b l [] hb s = refl
  served_burst b l (t ∷ ts) hb s =
      let f = step_facts b l mb p t hp hm (omega arith) small s.0 s.1 in
      rw (f.result, f.kept_room (omega arith))
        (omega (
          arith,
          served_burst f.burst' f.last' ts (omega (arith, f.grows_by_one))
              (Ascending-lower ts f.not_later s.2),
        ))
