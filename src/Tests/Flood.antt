-- ===== src/Tests/Flood.antt =====
-- The flood guard on a few packets, and the donedl guard.
use japlusproxy.Prelude.{
  ◌+◌, ◌-◌, ◌*◌, ◌≤◌, ◌<◌, ◌≡◌, refl, inl, inr, Bytes, List, [], ◌∷◌, ◌++◌, arith,
}
use japlusproxy.Prelude.Int.{ℤ, pos}
use japlusproxy.Throttle.RateLimit.Run.{last_of}
use japlusproxy.Throttle.Rcon.{rcon_init}
use japlusproxy.Throttle.Oob
use japlusproxy.Throttle.Oob.Shares.{sender_share}
use japlusproxy.Throttle.Oob.Follow.{FromListed-FewSend}
use japlusproxy.Throttle.Oob.{oob_init, limit_of, refresh_cfg}
use japlusproxy.Throttle.Oob.{detour_connless}
use japlusproxy.Throttle.Oob.Senders.{passed_from, sender_limit}
use japlusproxy.Throttle.Oob.Flood.{Packet, arrivals, passed, passed_potential}
use japlusproxy.Throttle.Tally.{account, IsAccounted}
use japlusproxy.Throttle.Donedl
use japlusproxy.Throttle.Donedl.{tally_of, done_download_counts}
use japlusproxy.Throttle.Oob.Accounts.{oob_accounts}
use japlusproxy.Throttle.Oob.Patient.{FloodOnly, detour_connless-FloodOnly}
use japlusproxy.Throttle.Oob.Reach.{Reachable-IsWell}
use japlusproxy.Throttle.Oob.Ideal.{ideal_init, oob_ideal}

-- An engine that has none of the settings.
abbrev stock : Bytes → ℤ
stock name = pos 0

abbrev packets : List Packet
packets = (7, 1000, pos 1000) ∷ (9, 1001, pos 1001) ∷ []

stock_limit : limit_of (pos 0) (pos 1000) ≡ pos 1000
unfolding limit_of
stock_limit = refl

passed_potential_example :
    passed stock oob_init packets * 1 + 0 * 1 + 0 ≤ 1000 * 1 + last_of 0 (arrivals packets)
passed_potential_example =
    passed_potential stock 1000 1 (omega arith) (omega arith) (omega arith) stock_limit refl
      oob_init packets 0 0 (inl refl) refl (omega arith)
      (omega arith, omega arith, (omega arith, omega arith, tt))

abbrev clicks : List ℤ
clicks = pos 100 ∷ pos 6000 ∷ pos 6100 ∷ []

done_download_counts_example :
    ((account (Donedl.fate stock) rcon_init.tally clicks).handled ≡ 0)
    × IsAccounted tally_of 0 3 (account (Donedl.fate stock) rcon_init.tally clicks)
done_download_counts_example =
    done_download_counts stock rcon_init.tally clicks 0 refl refl (omega arith)

one_a_second : sender_limit stock ≡ pos 1
unfolding limit_of
one_a_second = refl

abbrev first_packets : List Packet
first_packets = (9, 500, pos 500) ∷ (7, 600, pos 600) ∷ []

sender_share_example :
    passed_from 7 stock (Oob.Follow.state_after stock oob_init first_packets) packets * 1000
    < (10 * 1 + 1) * 1000 + (last_of 1000 [] - 1000)
sender_share_example =
    sender_share stock 1 1000 (omega arith) (omega arith) refl one_a_second 7 first_packets packets
      1000 [] refl
      (FromListed-FewSend 11000 (7 ∷ 9 ∷ []) (first_packets ++ packets) (omega arith)
        (λ _. inr (inl refl), (λ _. inl refl, (λ _. inl refl, (λ _. inr (inl refl), tt)))))
      (
        omega arith,
        omega arith,
        (omega arith, omega arith, (omega arith, omega arith, (omega arith, omega arith, tt))),
      )
      refl

oob_accounts_example :
    IsAccounted Oob.Accounts.tally_of 0 2 (account (Oob.Accounts.fate stock) oob_init packets)
oob_accounts_example = oob_accounts stock oob_init packets 0 refl (omega arith)

-- By the time of the second of these, the first is forgotten.
abbrev spread : List Packet
spread = (7, 1000, pos 1000) ∷ (9, 12000, pos 12000) ∷ []

oob_ideal_example :
    Oob.Ideal.verdicts stock oob_init spread ≡ Oob.Ideal.ideal_verdicts stock ideal_init spread
oob_ideal_example =
    oob_ideal stock 1 1000 (omega arith) (omega arith) refl one_a_second spread
      (λ _. omega arith, (λ _. omega arith, tt))
      (omega arith, omega arith, (omega arith, omega arith, tt))

one_packet : Oob.Reach.Reachable (detour_connless stock (pos 1000) (pos 1001) 7 oob_init).after
one_packet =
    Oob.Reach.Reachable.packet stock (pos 1000) (pos 1001) 7 oob_init (omega arith) (omega arith)
      Oob.Reach.Reachable.start

Reachable-IsWell_example :
    Oob.Reach.IsWell (detour_connless stock (pos 1000) (pos 1001) 7 oob_init).after
Reachable-IsWell_example =
    Reachable-IsWell (detour_connless stock (pos 1000) (pos 1001) 7 oob_init).after one_packet

abbrev paced_packets : List Packet
paced_packets = (9, 1000, pos 1000) ∷ (7, 1500, pos 1500) ∷ (9, 2500, pos 2500) ∷ []

detour_connless-FloodOnly_example : FloodOnly 9 stock oob_init paced_packets
detour_connless-FloodOnly_example =
    detour_connless-FloodOnly stock 1 1000 (omega arith) (omega arith) refl one_a_second 9
      paced_packets 1000 (2500 ∷ []) refl
      (FromListed-FewSend 11000 (7 ∷ 9 ∷ []) paced_packets (omega arith)
        (λ _. inr (inl refl), (λ _. inl refl, (λ _. inr (inl refl), tt))))
      (omega arith, omega arith, (omega arith, omega arith, (omega arith, omega arith, tt))) refl
      (omega arith, omega arith, tt)
