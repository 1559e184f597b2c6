-- ===== src/Throttle/RateLimit/Range.antt =====
-- The two `int` of a leaky bucket stay in range, whatever the clock reads.
use japlusproxy.Prelude.{
  ℕ, ◌+◌, ◌-◌, ◌/◌, ◌%◌, ◌^◌, ◌≤◌, ◌<◌, ◌≡◌, refl, ltb, Bool, true, false, ◌||◌, arith, if-holds,
}
use japlusproxy.Prelude.Int.{
  ℤ, pos, negsuc, ◌-ℤ◌, ◌≤ℤ◌, leb_ℤ, ltb_ℤ, c_div, c_mod, wrap32, wrap32-pos, +ℤ-pos, -ℤ-pos,
}
use japlusproxy.Throttle.RateLimit.{Meter, leak, fill, rate_limit}

-- The values of a C `int`.
abbrev pub IsInt32 : ℤ → Type 0
IsInt32 (pos n) = n < 2 ^ 31
IsInt32 (negsuc n) = n < 2 ^ 31

pub wrap32-IsInt32 : (v : ℤ) → IsInt32 (wrap32 v)
unfolding wrap32
wrap32-IsInt32 (pos n) =
    if-holds IsInt32 (ltb (n % 2 ^ 32) (2 ^ 31)) (λ low. ground arith) (λ high. grind arith)
wrap32-IsInt32 (negsuc n) =
    if-holds IsInt32 (ltb (n % 2 ^ 32) (2 ^ 31)) (λ low. ground arith) (λ high. grind arith)

-- The burst is a count of at most `cap`, and the time is an `int`.
pub record InRange (cap : ℕ) (m : Meter) : Type 0 where
  pub count : ℕ
  pub burst : m.burst ≡ pos count
  pub capped : count ≤ cap
  pub time : IsInt32 m.last_time

module _ (cap : ℕ) (small : cap < 2 ^ 31) (m : Meter) (h : InRange cap m) where
  -- A burst that covers the expired periods loses them.
  drained :
      (interval : ℤ) (p : ℕ)
      → (ltb_ℤ m.burst (c_div interval (pos p)) || ltb_ℤ interval (pos 0)) ≡ false
      → (c : ℕ) × (wrap32 (m.burst -ℤ c_div interval (pos p)) ≡ pos c) × (c ≤ cap)
  drained (negsuc n) p covered = ground arith
  drained (pos n) p covered = (
    h.count - n / p,
    rw (h.burst, -ℤ-pos h.count (n / p) (ground (arith, h.burst)))
        (wrap32-pos (h.count - n / p) (omega (arith, h.capped))),
    omega (arith, h.capped),
  )

  leak-InRange : (p : ℕ) (now : ℤ) → IsInt32 now → InRange cap (leak m (pos p) now)
  unfolding leak
  leak-InRange p now int =
      let interval = wrap32 (now -ℤ m.last_time) in
      if-holds (InRange cap) (ltb_ℤ m.burst (c_div interval (pos p)) || ltb_ℤ interval (pos 0))
        (λ _. record { count = 0; burst = refl; capped = omega arith; time = int })
        (λ covered.
          let (c, e, le) = drained interval p covered in
          record {
            count = c;
            burst = e;
            capped = le;
            time = wrap32-IsInt32 (now -ℤ c_mod interval (pos p));
          })

  below : (mb : ℤ) → ltb_ℤ m.burst mb ≡ true → mb ≤ℤ pos cap → h.count + 1 ≤ cap
  below (negsuc n) room le = ground (arith, h.burst)
  below (pos n) room le = ground (arith, h.burst)

  fill-InRange : (max_burst : ℤ) → max_burst ≤ℤ pos cap → InRange cap (fill m max_burst).0
  unfolding fill
  fill-InRange max_burst le =
      if-holds (λ (r : Meter × Bool). InRange cap r.0) (ltb_ℤ m.burst max_burst)
        (λ room.
          let less = below max_burst room le in
          record {
            count = h.count + 1;
            burst = rw (h.burst, +ℤ-pos) (wrap32-pos (h.count + 1) (omega (arith, less)));
            capped = less;
            time = h.time;
          })
        (λ _. h)

pub rate_limit-InRange :
    (cap : ℕ) (m : Meter) (max_burst period now : ℤ)
    → cap < 2 ^ 31
    → InRange cap m
    → max_burst ≤ℤ pos cap
    → IsInt32 now
    → InRange cap (rate_limit m max_burst period now).0
unfolding rate_limit
rate_limit-InRange cap m max_burst (negsuc n) now small h le int = ground (arith, h)
rate_limit-InRange cap m max_burst (pos p) now small h le int =
    if-holds (λ (r : Meter × Bool). InRange cap r.0)
      (leb_ℤ (pos p) (pos 0) || leb_ℤ max_burst (pos 0)) (λ _. h)
      (λ _.
        fill-InRange cap small (leak m (pos p) now) (leak-InRange cap small m h p now int) max_burst
          le)
