-- ===== src/Commands.antt =====
-- The filter on client commands of proxy/proxy.c: ShouldBlockClientCommand, in a child each for the
-- argument string, the JA+ commands and the commands of the base game. `true` is "block".
pub mod Args
pub mod JaPlus
pub mod Vanilla
pub mod Safe
pub mod Sinks
use japlusproxy.Prelude.{ℕ, Bytes, codes, Bool, if◌then◌else◌, Option, some, List, []}
use japlusproxy.Prelude.Int.{ℤ}
use japlusproxy.Engine.{Request, Engine}
use japlusproxy.Text.{str_case_prefix}
use Args.{gather_args}
use JaPlus.{ja_plus_block}
use Vanilla.{Verdict, vanilla_block}

unfoldable pub should_block_client_command : Engine → ℤ → Verdict
should_block_client_command e client =
    let arg0 = e.argv 0 128 in
    let arg1 = e.argv 1 128 in
    let arg2 = e.argv 2 256 in
    let args = gather_args e in
    if str_case_prefix arg0 (codes "am") 2
    then record { block = ja_plus_block arg0 args e.argc arg1; sent = [] }
    else vanilla_block e client arg0 args arg1 arg2
