-- ===== src/Throttle/Buckets/Full.antt =====
-- A full table has as many senders as buckets.
use japlusproxy.Prelude.{
  ℕ, ◌<◌, ◌≤◌, ◌≡◌, inl, inr, refl, ◌∙◌, none, some, List, [], ◌∷◌, arith, length, ◌==◌, ==_iff,
  Bool-cases,
}
use japlusproxy.Throttle.RateLimit.{Meter}
use japlusproxy.Throttle.Crowd.{Listed}
use japlusproxy.Throttle.Crowd.Recent.{remove, length-remove, Listed-remove}
use japlusproxy.Throttle.Buckets.{Bucket}
use japlusproxy.Throttle.Buckets.Lookup.{Others}
use japlusproxy.Throttle.Buckets.Meters.{meter_of, Others-none}
use japlusproxy.Throttle.Buckets.Distinct.{Distinct, meter_of-own, meter_of-behind}

-- The senders of a table are all on a list.
abbrev pub AllHeld : List ℕ → List Bucket → Type 0
AllHeld senders t = (q : ℕ) (m : Meter) → meter_of q t ≡ some m → Listed q senders

AllHeld-remove :
    (a : ℕ) (senders : List ℕ) (t : List Bucket)
    → meter_of a t ≡ none
    → AllHeld senders t
    → AllHeld (remove a senders) t
AllHeld-remove a senders t absent held q m h = elim (Bool-cases (a == q)) [
  | inl own ↦ cc (rw ((==_iff a q).0 own) at absent, h)
  | inr other ↦ Listed-remove a q senders other (held q m h)
]

length-AllHeld :
    (ipi : ℕ) (t : List Bucket) (senders : List ℕ)
    → Distinct t
    → Others ipi t
    → AllHeld senders t
    → length t ≤ length senders
length-AllHeld ipi [] senders d o held = omega arith
length-AllHeld ipi (b ∷ t) senders d o held =
    let first = held b.ipi b.meter (meter_of-own b.ipi b t o.0 ((==_iff b.ipi b.ipi).1 refl)) in
    let rest : AllHeld senders t = λ q m h. elim (Bool-cases (b.ipi == q)) [
      | inl own ↦ cc (rw ((==_iff b.ipi q).0 own) at (d.0 o.0), h)
      | inr other ↦ held q m (meter_of-behind q b t o.0 other ∙ h)
    ] in
    let others =
      length-AllHeld ipi t (remove b.ipi senders) d.1 o.2
        (AllHeld-remove b.ipi senders t (d.0 o.0) rest) in
    omega (arith, length-remove b.ipi senders first, others)

-- With a newcomer there are more senders than buckets.
pub length-newcomer :
    (ipi : ℕ) (t : List Bucket) (senders : List ℕ)
    → Distinct t
    → Others ipi t
    → AllHeld senders t
    → Listed ipi senders
    → length t < length senders
length-newcomer ipi t senders d o held listed =
    let others =
      length-AllHeld ipi t (remove ipi senders) d o
        (AllHeld-remove ipi senders t (Others-none ipi t o) held) in
    omega (arith, length-remove ipi senders listed, others)
