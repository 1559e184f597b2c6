-- ===== src/Info/Parse/Writes.antt =====
-- Info_Set on any string.
use mathlib.Core.List.{append-nil, append_assoc}
use japlusproxy.Prelude.{
  ℕ, zero, suc, ◌+◌, ◌≤◌, ◌<◌, ◌≡◌, inl, inr, sym, ap, ◌∙◌, Bytes, [], ◌++◌, arith, length,
  length-append, take_all, Bool-cases,
}
use japlusproxy.Info.{same_key, next_pair, copy_others, info_fuel, info_set, pair_bytes}
use japlusproxy.Info.Pairs.{NoSlash, Pairs, AllClean, render, without}
use japlusproxy.Info.Parse.{
  pairs_from, pairs_of, Option-cases, next_pair-Taken, length-Taken, length-pairs_from,
  pairs_from-AllClean, pairs_of-render,
}
use japlusproxy.Info.Laws.{
  update, new_pair, length-without, length-new_pair, render-pair, render-append, append_pair-render,
  copy_pair_same, copy_pair_other, AllClean-update, length-update,
}

copy_others-pairs_from :
    (fuel : ℕ) (key s tmp : Bytes)
    → length tmp + length s < 2047
    → copy_others fuel key s tmp ≡ tmp ++ render (without key (pairs_from fuel s))
unfolding pairs_from copy_others without
copy_others-pairs_from zero key s tmp fit = sym (append-nil tmp)
copy_others-pairs_from (suc fuel) key s tmp fit = elim (Option-cases (next_pair s)) [
  | inl e ↦ rw (e, copy_others, pairs_from) (sym (append-nil tmp))
  | inr (p, e) ↦
      let len = length-Taken s p (next_pair-Taken s p e) in
      rw (e, copy_others, pairs_from)
        (elim (Bool-cases (same_key p.key key)) [
          | inl same ↦
              rw (copy_pair_same key p.key p.value p.rest tmp same, same)
                (copy_others-pairs_from fuel key p.rest tmp (omega (arith, len)))
          | inr other ↦
              rw (copy_pair_other key p.key p.value p.rest tmp other (omega (arith, len)), other)
                (copy_others-pairs_from fuel key p.rest (tmp ++ pair_bytes p.key p.value)
                    (omega (arith, len, length-append tmp (pair_bytes p.key p.value)))
                  ∙ append_assoc tmp (pair_bytes p.key p.value)
                      (render (without key (pairs_from fuel p.rest)))
                  ∙ ap (tmp ++◌) (render-pair p.key p.value (without key (pairs_from fuel p.rest))))
        ])
]

-- In any string that leaves room for the new pair in 2048 bytes, Info_Set leaves the pairs of the
-- string, printed, without those of the key, up to case, and with the new one last, if it is not
-- empty.
pub info_set_lem :
    (s key value : Bytes)
    → length s + (2 + length key + length value) < 2047
    → info_set s 2048 key value ≡ render (update key value (pairs_of s))
unfolding info_set
info_set_lem s key value fit =
    let kept = copy_others-pairs_from (info_fuel s) key s [] (omega arith) in
    let whole = length-pairs_from (info_fuel s) s in
    let shorter = length-without key (pairs_of s) in
    let appended = append_pair-render key value (render (without key (pairs_of s))) (omega arith) in
    rw (kept, appended, ← render-append (without key (pairs_of s)) (new_pair key value))
      (take_all 2047 (render (update key value (pairs_of s)))
        (rw (render-append, length-append) (omega (arith, length-new_pair key value))))

-- What the other keys read as, and the new one, after Info_Set on such a string.
pub pairs_of-info_set :
    (s key value : Bytes)
    → NoSlash key
    → NoSlash value
    → length s + (2 + length key + length value) < 2047
    → pairs_of (info_set s 2048 key value) ≡ update key value (pairs_of s)
pairs_of-info_set s key value nk nv fit =
    ap pairs_of (info_set_lem s key value fit)
    ∙ pairs_of-render (update key value (pairs_of s))
        (AllClean-update key value (pairs_of s) nk nv (pairs_from-AllClean (info_fuel s) s))

pub length-info_set :
    (s key value : Bytes)
    → length s + (2 + length key + length value) < 2047
    → length (info_set s 2048 key value) ≤ length s + (2 + length key + length value)
length-info_set s key value fit =
    rw (info_set_lem s key value fit)
      (omega (arith, length-update key value (pairs_of s), length-pairs_from (info_fuel s) s))

-- On a printed list of pairs that hold no backslash, it prints the list with the key updated.
info_set-update :
    (ps : Pairs) (key value : Bytes)
    → AllClean ps
    → length (render ps) + (2 + length key + length value) < 2047
    → info_set (render ps) 2048 key value ≡ render (update key value ps)
info_set-update ps key value c fit =
    info_set_lem (render ps) key value fit
    ∙ ap (λ qs. render (update key value qs)) (pairs_of-render ps c)
