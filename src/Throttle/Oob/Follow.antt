-- ===== src/Throttle/Oob/Follow.antt =====
-- The connectionless detour of proxy/patch.c beside a meter for every address, while few addresses
-- send.
use japlusproxy.Prelude.{
  ℕ, ◌*◌, ◌/◌, ◌^◌, ◌≤◌, ◌<◌, ◌≡◌, ◌≢◌, ◌⊎◌, refl, inl, inr, Bytes, false, List, [], ◌∷◌, arith,
  length, ◌==◌, ==_iff, Bool-cases,
}
use japlusproxy.Prelude.Int.{ℤ, pos}
use japlusproxy.Throttle.RateLimit.Run.{Ascending, last_of}
use japlusproxy.Throttle.Crowd.{AllListed}
use japlusproxy.Throttle.Crowd.Recent.{insert, recent_of, Past, IsCalm, past_of}
use japlusproxy.Throttle.Crowd.Few.{AllListed-IsCalm}
use japlusproxy.Throttle.Buckets.{charge, empty_meter}
use japlusproxy.Throttle.Buckets.Calm.{span_of, Follows}
use japlusproxy.Throttle.Buckets.Calm.Step.{Follows-answer, Follows-charge}
use japlusproxy.Throttle.Buckets.Calm.Start.{Follows-init, Follows-later}
use japlusproxy.Throttle.Buckets.View.{Meters, ideal_charge}
use japlusproxy.Throttle.Rcon.{loopback}
use japlusproxy.Throttle.Oob.{Oob, oob_init, detour_connless}
use japlusproxy.Throttle.Oob.Flood.{Packet, arrivals, detour_connless-loopback}
use japlusproxy.Throttle.Oob.Senders.{
  sender_limit, IsSteady, detour_charges, detour-IsSteady, some_period,
}

-- The state after a run.
unfoldable pub state_after : (Bytes → ℤ) → Oob → List Packet → Oob
state_after cvar s [] = s
state_after cvar s ((ipi, t, later) ∷ rest) =
    state_after cvar (detour_connless cvar (pos t) later ipi s).after rest

abbrev pub past_after : Past → List Packet → Past
past_after past packets = past_of (λ (a : Packet). a.0) (λ (a : Packet). a.1) loopback past packets

-- At no packet have more than 256 addresses from outside sent within `span` ms.
abbrev pub FewSend : ℕ → Past → List Packet → Type 0
FewSend span past packets =
    IsCalm (λ (a : Packet). a.0) (λ (a : Packet). a.1) loopback 256 span past packets

-- The senders from outside are among those of a list.
abbrev pub FromListed : List ℕ → List Packet → Type 0
FromListed senders packets = AllListed (λ (a : Packet). a.0) loopback senders packets

pub FromListed-FewSend :
    (span : ℕ) (senders : List ℕ) (packets : List Packet)
    → length senders ≤ 256
    → FromListed senders packets
    → FewSend span [] packets
FromListed-FewSend span senders packets few =
    AllListed-IsCalm senders (λ (a : Packet). a.0) (λ (a : Packet). a.1) loopback 256 span few
      packets

module _ (cvar : Bytes → ℤ) (r p : ℕ) (some_rate : 0 < r) (few : r ≤ 1000) (period : 1000 / r ≡ p)
    (ip : sender_limit cvar ≡ pos r) where
  -- The guard beside the specification; the settings are those that the engine has.
  pub record Beside (past : Past) (now : ℕ) (s : Oob) (m : Meters) : Type 0 where
    pub follows : Follows 256 (10 * r) p past now s.table m
    pub known : (s.config.time ≡ pos 0) ⊎ (s.config.ip ≡ sender_limit cvar)

  pub some_p : 0 < p
  some_p = rw (← period) (some_period r some_rate few)

  pub Beside-init : Beside [] 0 oob_init (λ _. empty_meter)
  Beside-init = record { follows = Follows-init 256 (10 * r) p; known = inl refl }

  module _ {past : Past} {now : ℕ} (s : Oob) {m : Meters} (h : Beside past now s m) where
    pub Beside-IsSteady : IsSteady cvar s
    Beside-IsSteady = record {
      packed = h.follows.packed;
      some_slot = omega (arith, h.follows.size);
      known = h.known;
    }

    pub Beside-later : (at : ℕ) → now ≤ at → Beside past at s m
    Beside-later at after = record { follows = Follows-later h.follows at after; known = h.known }

    module _ (ipi at : ℕ) (later : ℤ) (after : now ≤ at) (fits : at < 2 ^ 31) where
      -- The sender's bucket gives the verdict of the specification.
      pub sender-ideal :
          (charge s.table ipi (pos (10 * r)) (pos p) (pos at)).1
          ≡ (ideal_charge m ipi (pos (10 * r)) (pos p) (pos at)).1
      sender-ideal =
          Follows-answer 256 (10 * r) p (omega arith) (omega arith) (omega arith) some_p past now
            s.table m h.follows ipi at after fits

      pub Beside-detour :
          (ipi == loopback) ≡ false
          → (ipi ≢ loopback → length (insert ipi (recent_of (span_of (10 * r) p) at past)) ≤ 256)
          → Beside
              ((ipi, at) ∷ past)
              at
              (detour_connless cvar (pos at) later ipi s).after
              (ideal_charge m ipi (pos (10 * r)) (pos p) (pos at)).0
      Beside-detour far calm =
          let small = calm (λ e. cc (far, (==_iff ipi loopback).1 e)) in
          let charges = detour_charges cvar (pos r) ip (pos at) later ipi s Beside-IsSteady far in
          record {
            follows =
                rw (charges.0, period)
                  (Follows-charge 256 (10 * r) p (omega arith) (omega arith) (omega arith) some_p
                    past now s.table m h.follows ipi at after fits small);
            known =
                (detour-IsSteady cvar (pos r) ip (pos at) later ipi s Beside-IsSteady far).known;
          }

  pub run-Beside :
      (s : Oob) (m : Meters) (past : Past) (now : ℕ) (packets : List Packet)
      → Beside past now s m
      → FewSend (span_of (10 * r) p) past packets
      → Ascending now (arrivals packets)
      → (m' : Meters) × Beside
          (past_after past packets)
          (last_of now (arrivals packets))
          (state_after cvar s packets)
          m'
  unfolding state_after
  run-Beside s m past now [] h calm in_time = (m, h)
  run-Beside s m past now ((ipi, t, later) ∷ rest) h calm in_time =
      elim (Bool-cases (ipi == loopback)) [
        | inl local ↦
            let quiet = detour_connless-loopback cvar (pos t) later ipi s local in
            rw (local, state_after, quiet)
              (run-Beside s m past t rest (Beside-later s h t in_time.0) (rw local at calm.1)
                in_time.2)
        | inr far ↦ rw far (
            run-Beside (detour_connless cvar (pos t) later ipi s).after
              (ideal_charge m ipi (pos (10 * r)) (pos p) (pos t)).0 ((ipi, t) ∷ past) t rest
              (Beside-detour s h ipi t later in_time.0 in_time.1 far calm.0) (rw far at calm.1)
              in_time.2)
      ]
