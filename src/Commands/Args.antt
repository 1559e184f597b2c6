-- ===== src/Commands/Args.antt =====
-- The loop of ShouldBlockClientCommand that joins the arguments, with a buffer of 1024 bytes and
-- 256 bytes for each token.
pub mod Joined
use japlusproxy.Prelude.{
  ℕ, zero, suc, ◌+◌, ◌-◌, Bytes, Bool, ◌&&◌, List, [], ◌∷◌, ◌++◌, length, take, ltb, if◌then◌else◌,
}
use japlusproxy.Engine.{Engine}

-- One round: a space before all but the first, and as much of the token as there is room for.
unfoldable pub append_token : ℕ → Bytes → Bytes → Bytes
append_token i tok args =
    let spaced = if ltb 1 i && ltb (length args) 1023 then args ++ b' ' ∷ [] else args in
    let room = 1023 - length spaced in
    spaced ++ take (if ltb room (length tok) then room else length tok) tok

-- The rounds from token `i` on; `k` are left.
unfoldable pub join_from : Engine → ℕ → ℕ → Bytes → Bytes
join_from e i zero args = args
join_from e i (suc k) args =
    let rest = join_from e (i + 1) k (append_token i (e.argv i 256) args) in
    if ltb (length args) 1023 then rest else args

unfoldable pub gather_args : Engine → Bytes
gather_args e = join_from e 1 (e.argc - 1) []
