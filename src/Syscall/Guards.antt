-- ===== src/Syscall/Guards.antt =====
-- What the filter on the game's calls guarantees to the engine and to the game.
use japlusproxy.Prelude.{
  ℕ, zero, suc, ◌-◌, ◌≤◌, ◌<◌, ◌≡◌, ◌≢◌, ◌⊎◌, inl, inr, refl, ap, ◌∙◌, sym, Bytes, Bool, true,
  false, Option, none, some, List, [], ◌∷◌, arith, min, length, length-set, take-take, take,
  take_all, set, ltb, Bool-cases,
}
use japlusproxy.Prelude.Int.{ℤ, pos, negsuc, ◌≤ℤ◌, ◌==ℤ◌}
use japlusproxy.Engine.{
  Usercmd, Request, print, drop_client, send_server_command, set_configstring, set_userinfo,
  get_usercmd, get_entity_token, other, Engine,
}
use japlusproxy.Syscall.{
  clean_usercmd, c_string, cap_token, cut_cells, capped, entity_token, filter_call, proxy_syscall,
}

-- Input that the game can take: no roll, and a force power that is selectable or "none".
pub record IsCleaned (before after : Usercmd) : Type 0 where
  pub no_roll : after.roll ≡ pos 0
  pub selectable : (after.forcesel < 19) ⊎ (after.forcesel ≡ 255)
  pub no_levitation : after.forcesel ≢ 1
  pub kept_selection : before.forcesel < 19 → before.forcesel ≢ 1 → after.forcesel ≡ before.forcesel
  pub same_rest : after ≡ record before { roll = after.roll; forcesel = after.forcesel }

clean_usercmd-IsCleaned : (u : Usercmd) → IsCleaned u (clean_usercmd u)
unfolding clean_usercmd
clean_usercmd-IsCleaned u = record {
  no_roll = refl;
  selectable = ground arith;
  no_levitation = ground arith;
  kept_selection = λ h k. ground arith;
  same_rest = refl;
}

-- A client's input that the game pulls through the filter is cleaned, and nothing else of it
-- changes; the engine is asked once.
pub get_usercmd-IsCleaned :
    (e : Engine) (client : ℤ)
    → (u : Usercmd) × ((proxy_syscall (some e) (get_usercmd client true)).usercmd ≡ some u)
      × IsCleaned (e.answer (get_usercmd client true)).usercmd u
      × ((proxy_syscall (some e) (get_usercmd client true)).sent ≡ get_usercmd client true ∷ [])
unfolding proxy_syscall
get_usercmd-IsCleaned e client =
    let u = (e.answer (get_usercmd client true)).usercmd in
    (clean_usercmd u, unfold clean_usercmd in refl, clean_usercmd-IsCleaned u, refl)

-- A NUL written into a buffer cuts the string there.
c_string-set :
    (cells : Bytes) (k : ℕ) → k < length cells → c_string (set cells k 0) ≡ take k (c_string cells)
unfolding c_string
c_string-set [] k h = elim h [ ]
c_string-set (zero ∷ cells) zero h = refl
c_string-set (suc c ∷ cells) zero h = refl
c_string-set (zero ∷ cells) (suc k) h = refl
c_string-set (suc c ∷ cells) (suc k) h = ap (◌∷◌ (suc c)) (c_string-set cells k (omega arith))

-- A request that is within the limits of the engine's buffers.
abbrev pub Fits : Request → Type 0
Fits (send_server_command target (some s)) = length s ≤ 1022
Fits (set_configstring index none) = (pos 0 ≤ℤ index) × (index ≤ℤ pos 2048)
Fits (set_configstring index (some s)) = (pos 0 ≤ℤ index) × (index ≤ℤ pos 2048) × (length s < 8192)
Fits r = Unit

abbrev pub AllFit : List Request → Type 0
AllFit [] = Unit
AllFit (r ∷ rs) = Fits r × AllFit rs

ne_zero : (v : ℤ) → v ≢ pos 0 → (v ==ℤ pos 0) ≡ false
ne_zero (pos zero) h = absurd (h refl)
ne_zero (pos (suc n)) h = ground arith
ne_zero (negsuc n) h = ground arith

capped-AllFit :
    (e : Engine) (given : Bool) (size : ℤ) (n : ℕ)
    → AllFit (capped e (get_entity_token given size) n).sent
capped-AllFit e given size n =
    elim (Bool-cases (cap_token n (e.answer (get_entity_token given size)).cells).1) [
      | inl cut ↦ rw cut (tt, (tt, tt))
      | inr whole ↦ rw whole (tt, tt)
    ]

entity_token-AllFit :
    (e : Engine) (given : Bool) (size : ℤ) → AllFit (entity_token e given size).sent
unfolding entity_token
entity_token-AllFit e false size = (tt, tt)
entity_token-AllFit e true (negsuc n) = (tt, tt)
entity_token-AllFit e true (pos zero) = (tt, tt)
entity_token-AllFit e true (pos (suc n)) =
    ground (arith, capped-AllFit e true (pos (suc n)) (suc n))

filter_call-AllFit : (e : Engine) (r : Request) → AllFit (filter_call e r).sent
unfolding filter_call
filter_call-AllFit e (get_usercmd client given) = (tt, tt)
filter_call-AllFit e (get_entity_token given size) = entity_token-AllFit e given size
filter_call-AllFit e (send_server_command target none) = (tt, tt)
filter_call-AllFit e (send_server_command target (some s)) = ground arith
filter_call-AllFit e (set_configstring index none) = ground arith
filter_call-AllFit e (set_configstring index (some s)) = ground arith
filter_call-AllFit e (print s) = (tt, tt)
filter_call-AllFit e (drop_client n s) = (tt, tt)
filter_call-AllFit e (set_userinfo n s) = (tt, tt)
filter_call-AllFit e (other n s) = (tt, tt)

-- Whatever the game asks for, no call that reaches the engine overflows its buffers.
pub proxy_syscall-AllFit : (e : Option Engine) (r : Request) → AllFit (proxy_syscall e r).sent
unfolding proxy_syscall
proxy_syscall-AllFit none r = tt
proxy_syscall-AllFit (some e) r = filter_call-AllFit e r

-- The requests whose answers the filter leaves alone.
abbrev pub IsPlain : Request → Type 0
IsPlain (get_usercmd client given) = ⊥
IsPlain (get_entity_token given size) = ⊥
IsPlain r = Unit

-- A request within the limits, other than the two whose answers are cleaned, goes to the engine
-- unchanged and alone, and the game gets the engine's return value.
pub proxy_syscall-forward :
    (e : Engine) (r : Request)
    → IsPlain r
    → Fits r
    → ((proxy_syscall (some e) r).sent ≡ r ∷ [])
      × ((proxy_syscall (some e) r).ret ≡ (e.answer r).ret)
unfolding proxy_syscall
proxy_syscall-forward e (get_usercmd client given) plain fits = absurd plain
proxy_syscall-forward e (get_entity_token given size) plain fits = absurd plain
proxy_syscall-forward e (send_server_command target (some s)) plain fits = ground arith
proxy_syscall-forward e (set_configstring index none) plain fits = ground arith
proxy_syscall-forward e (set_configstring index (some s)) plain fits = ground arith
proxy_syscall-forward e _ plain fits = (refl, refl)

module _ (n : ℕ) (cells : Bytes) (room : n < length cells) where
  abbrev ended : Bytes
  ended = set cells n 0

  -- The buffer is cut there if its string is longer.
  cut_at :
      (limit : ℕ) → limit ≤ n → c_string (cut_cells limit ended).0 ≡ take limit (c_string cells)
  cut_at limit h = elim (Bool-cases (ltb limit (length (c_string ended)))) [
    | inl long ↦ rw long (
        c_string-set ended limit (rw length-set (omega arith))
        ∙ ap (take limit) (c_string-set cells n room)
        ∙ take-take limit n (c_string cells) h)
    | inr short ↦ rw short (
        sym (take_all limit (c_string ended) (ground arith))
        ∙ ap (take limit) (c_string-set cells n room)
        ∙ take-take limit n (c_string cells) h)
  ]

  cap_token_lem : c_string (cap_token (suc n) cells).0 ≡ take (min n 1023) (c_string cells)
  unfolding cap_token
  cap_token_lem =
      let one_less : suc n - 1 ≡ n = omega arith in
      elim (Bool-cases (ltb n 1023)) [
        | inl small ↦
            let least : min n 1023 ≡ n = ground arith in
            rw (one_less, small, least) (cut_at n (omega arith))
        | inr large ↦
            let least : min n 1023 ≡ 1023 = ground arith in
            rw (one_less, large, least) (cut_at 1023 (ground arith))
      ]

-- A token that the engine delivers into a buffer of `suc n` bytes is the game's up to 1023 bytes
-- and what the buffer holds, and is cut there.
pub entity_token-capped :
    (e : Engine) (n : ℕ)
    → n < length (e.answer (get_entity_token true (pos (suc n)))).cells
    → (e.answer (get_entity_token true (pos (suc n)))).ret ≢ pos 0
    → c_string (proxy_syscall (some e) (get_entity_token true (pos (suc n)))).cells
      ≡ take (min n 1023) (c_string (e.answer (get_entity_token true (pos (suc n)))).cells)
unfolding proxy_syscall
entity_token-capped e n room got =
    let r = get_entity_token true (pos (suc n)) in
    rw (ne_zero (e.answer r).ret got) (cap_token_lem n (e.answer r).cells room)
