-- ===== src/Tests/Lifecycle.antt =====
-- The status and blocker commands at concrete texts.
use agent_task.Prelude.{◌≡◌, ◌≢◌, refl, true, false, none, some, [], ◌∷◌, arith}
use mathlib.Core.Option.{some-ne-none}
use agent_task.Result.{ok, err, already_blocked_by}
use agent_task.Text.{
  split, has_prefix, join, trim_prefix, has_suffix, trim_suffix, Bytes, codes, equal, contains,
  trim_space,
}
use agent_task.Content.{
  parse_blocked_by, blocked_by_prefix, get_field, get_status, get_blocked_by, update_status,
}
use agent_task.Content.Edits.{clash}
use agent_task.Content.BlockedBy.{IsPlainId}
use agent_task.Ticket.{status_open, status_in_progress, status_closed}
use agent_task.Lifecycle.{
  start_content, close_content, reopen_content, block_content, unblock_content,
}
use agent_task.Lifecycle.Reopen.{closed_prefix, reopen-close}
use agent_task.Lifecycle.Handlers.{start, run_lem}
use agent_task.Lifecycle.Blockers.{unblock-block}
use agent_task.Tests.Texts.{open_text, started_text}

started : get_status started_text ≡ ok status_in_progress
unfolding get_status split equal has_prefix trim_prefix
started = refl

not_closed : get_field closed_prefix started_text ≡ none
unfolding get_field split equal has_prefix trim_prefix
not_closed = refl

reopen-close_example :
    (closed_text opened : Bytes) × (close_content (codes "now") started_text ≡ ok closed_text)
    × (get_status closed_text ≡ ok status_closed)
    × (get_field closed_prefix closed_text ≡ some (codes "now"))
    × (reopen_content closed_text ≡ ok opened)
    × (update_status started_text status_open ≡ ok opened)
reopen-close_example = reopen-close started_text (codes "now") (ground arith) started not_closed

abbrev begun_text : Bytes
begun_text =
    codes
      "---\nid: aaa\nschema_version: 1\nblocked-by: []\ncreated: t\npriority: 2\nstatus: in_progress\ntype: task\n---\n# A title\n"

begun : start_content open_text ≡ ok begun_text
unfolding start_content get_status split equal has_prefix trim_prefix update_status join
begun = refl

run_lem_example :
    (get_status open_text ≡ ok status_open) × (get_status begun_text ≡ ok status_in_progress)
run_lem_example = run_lem start open_text begun_text tt begun

plain_bbb : IsPlainId (codes "bbb")
unfolding equal trim_space
plain_bbb = record {
  not_empty = refl;
  no_comma = ground arith;
  no_newline = ground arith;
  trimmed = refl;
}

plain_ccc : IsPlainId (codes "ccc")
unfolding equal trim_space
plain_ccc = record {
  not_empty = refl;
  no_comma = ground arith;
  no_newline = ground arith;
  trimmed = refl;
}

some_line : get_field blocked_by_prefix started_text ≢ none
unfolding get_field split equal has_prefix trim_prefix
some_line = some-ne-none (codes "[bbb]")

lists_bbb : get_blocked_by started_text ≡ ok (codes "bbb" ∷ [])
unfolding get_blocked_by split equal has_prefix parse_blocked_by trim_space trim_prefix has_suffix
    trim_suffix
lists_bbb = refl

lacks_ccc : contains (codes "bbb" ∷ []) (codes "ccc") ≡ false
unfolding contains equal
lacks_ccc = refl

unblock-block_example :
    (blocked unblocked : Bytes) × (block_content (codes "ccc") started_text ≡ ok blocked)
    × (get_blocked_by blocked ≡ ok (codes "bbb" ∷ codes "ccc" ∷ []))
    × (block_content (codes "ccc") blocked ≡ err already_blocked_by)
    × (unblock_content (codes "ccc") blocked ≡ ok unblocked)
    × (get_blocked_by unblocked ≡ ok (codes "bbb" ∷ []))
    × ((q : Bytes)
        → clash blocked_by_prefix q ≡ true
        → get_field q unblocked ≡ get_field q started_text)
unblock-block_example =
    unblock-block started_text (codes "ccc") (codes "bbb" ∷ []) (plain_bbb, tt) plain_ccc some_line
      lists_bbb lacks_ccc
