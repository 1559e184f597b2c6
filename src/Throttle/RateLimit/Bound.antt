-- ===== src/Throttle/RateLimit/Bound.antt =====
-- The bound on what a leaky bucket lets through.
pub mod Stale
use japlusproxy.Prelude.{
  ℕ, ◌+◌, ◌-◌, ◌*◌, ◌/◌, ◌%◌, ◌^◌, ◌≤◌, ◌<◌, ◌≡◌, Bool, true, false, arith, ltb, ltb→lt, lt→ltb,
  inl, inr, Bool-cases, refl, if◌then◌else◌,
}
use native.Mathlib.Nat.{mod-lt}
use native.Mathlib.Decide.{dec_lt}
use japlusproxy.Prelude.Int.{pos, wrap32-pos, +ℤ-pos, -ℤ-pos}
use japlusproxy.Throttle.RateLimit.{Meter, leak, fill, rate_limit}

abbrev pub meter : ℕ → ℕ → Meter
meter b l = record { burst = pos b; last_time = pos l }

-- The bucket over the natural numbers.
leak_ℕ : ℕ → ℕ → ℕ → ℕ → Meter
leak_ℕ b l p t =
    if ltb b ((t - l) / p) then meter 0 t else meter (b - (t - l) / p) (t - (t - l) % p)

leak-leak_ℕ :
    (b l p t : ℕ)
    → b < 2 ^ 31
    → l ≤ t
    → t < 2 ^ 31
    → leak (meter b l) (pos p) (pos t) ≡ leak_ℕ b l p t
unfolding leak leak_ℕ
leak-leak_ℕ b l p t hb hl ht =
    rw (-ℤ-pos t l hl, wrap32-pos (t - l) (omega arith))
      (elim (Bool-cases (ltb b ((t - l) / p))) [
        | inl over ↦ ground arith
        | inr kept ↦ ground (
          arith,
          -ℤ-pos b ((t - l) / p) (ground arith),
          wrap32-pos (b - (t - l) / p) (omega arith),
          -ℤ-pos t ((t - l) % p) (omega arith),
          wrap32-pos (t - (t - l) % p) (omega arith),
        )
      ])

fill_ℕ : ℕ → ℕ → ℕ → Meter × Bool
fill_ℕ b l mb = if ltb b mb then (meter (b + 1) l, false) else (meter b l, true)

fill-fill_ℕ : (b l mb : ℕ) → mb < 2 ^ 31 → fill (meter b l) (pos mb) ≡ fill_ℕ b l mb
unfolding fill fill_ℕ
fill-fill_ℕ b l mb h = elim (Bool-cases (ltb b mb)) [
  | inl room ↦ ground (arith, +ℤ-pos b 1, wrap32-pos (b + 1) (ground arith))
  | inr full ↦ ground arith
]

-- One call on a regular bucket: where it leaves the bucket, and what the call costs.
pub record StepFacts (b l mb p t : ℕ) : Type 0 where
  pub burst' : ℕ
  pub last' : ℕ
  pub over : Bool
  pub result : rate_limit (meter b l) (pos mb) (pos p) (pos t) ≡ (meter burst' last', over)
  pub capped : burst' ≤ mb
  pub not_later : last' ≤ t
  pub paid : b * p + l + (if over then 0 else p) ≤ burst' * p + last'
  pub kept_room : b < mb → over ≡ false
  pub grows_by_one : burst' ≤ b + 1
  pub recent : t < last' + p
  pub counted : over ≡ false → 0 < burst'
  pub served_if_spaced : p ≤ t - l → over ≡ false

rate_limit-split :
    (b l mb p t : ℕ)
    → 0 < p
    → 0 < mb
    → rate_limit (meter b l) (pos mb) (pos p) (pos t)
      ≡ fill (leak (meter b l) (pos p) (pos t)) (pos mb)
unfolding rate_limit
rate_limit-split b l mb p t hp hm = ground arith

-- More whole periods than the burst holds are worth more time than the burst.
over_pays : (e b p : ℕ) → b < e → b * p + p ≤ e * p
over_pays e b p h = grind arith

whole_period : (d p : ℕ) → 0 < p → p ≤ d → 0 < d / p
whole_period d p hp h = grind arith

kept_pays : (e b p : ℕ) → e ≤ b → (b - e) * p + e * p ≡ b * p
kept_pays e b p h = grind arith

module _ (b l mb p t : ℕ) (hp : 0 < p) (hm : 0 < mb) (hb : b ≤ mb) (small : mb < 2 ^ 31)
    (hl : l ≤ t) (ht : t < 2 ^ 31) where
  rate_limit-leak_ℕ :
      rate_limit (meter b l) (pos mb) (pos p) (pos t) ≡ fill (leak_ℕ b l p t) (pos mb)
  rate_limit-leak_ℕ =
      rw (rate_limit-split b l mb p t hp hm, leak-leak_ℕ b l p t (omega arith) hl ht)

  -- The elapsed time splits into whole periods and a rest.
  elapsed : t - l ≡ (t - l) / p * p + (t - l) % p
  elapsed = omega arith

  StepFacts-over : ltb b ((t - l) / p) ≡ true → StepFacts b l mb p t
  unfolding leak_ℕ
  StepFacts-over h = record {
    burst' = 1;
    last' = t;
    over = false;
    result =
        rw (rate_limit-leak_ℕ, leak_ℕ, h, fill-fill_ℕ 0 t mb small)
          (unfold fill_ℕ in rw (lt→ltb 0 mb hm));
    capped = omega arith;
    not_later = omega arith;
    paid = grind (arith, elapsed, over_pays ((t - l) / p) b p (ltb→lt b ((t - l) / p) h));
    kept_room = λ _. refl;
    grows_by_one = omega arith;
    recent = omega (arith, mod-lt (t - l) hp);
    counted = λ _. omega arith;
    served_if_spaced = λ _. refl;
  }

  StepFacts-room : ltb b ((t - l) / p) ≡ false → b - (t - l) / p < mb → StepFacts b l mb p t
  unfolding leak_ℕ
  StepFacts-room h room = record {
    burst' = b - (t - l) / p + 1;
    last' = t - (t - l) % p;
    over = false;
    result =
        rw (rate_limit-leak_ℕ, leak_ℕ, h, fill-fill_ℕ (b - (t - l) / p) (t - (t - l) % p) mb small)
          (unfold fill_ℕ in rw (lt→ltb _ mb room));
    capped = omega arith;
    not_later = omega arith;
    paid = omega (arith, elapsed, kept_pays ((t - l) / p) b p (ground arith));
    kept_room = λ _. refl;
    grows_by_one = omega arith;
    recent = omega (arith, mod-lt (t - l) hp);
    counted = λ _. omega arith;
    served_if_spaced = λ _. refl;
  }

  StepFacts-full : ltb b ((t - l) / p) ≡ false → mb ≤ b - (t - l) / p → StepFacts b l mb p t
  unfolding leak_ℕ
  StepFacts-full h full = record {
    burst' = b - (t - l) / p;
    last' = t - (t - l) % p;
    over = true;
    result =
        rw (rate_limit-leak_ℕ, leak_ℕ, h, fill-fill_ℕ (b - (t - l) / p) (t - (t - l) % p) mb small)
          (unfold fill_ℕ in ground arith);
    capped = omega arith;
    not_later = omega arith;
    paid = omega (arith, elapsed, kept_pays ((t - l) / p) b p (ground arith));
    kept_room = λ g. absurd (omega arith);
    grows_by_one = omega arith;
    recent = omega (arith, mod-lt (t - l) hp);
    counted = λ g. cc;
    served_if_spaced = λ g. absurd (omega (arith, whole_period (t - l) p hp g));
  }

  -- `true` answers and `false` ones, by the three ways through the function.
  pub step_facts : StepFacts b l mb p t
  step_facts = elim (Bool-cases (ltb b ((t - l) / p))) [
    | inl over ↦ StepFacts-over over
    | inr kept ↦ elim (dec_lt (b - (t - l) / p) mb) [
      | yes room ↦ StepFacts-room kept room
      | no full ↦ StepFacts-full kept (omega arith)
    ]
  ]
