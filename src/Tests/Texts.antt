-- ===== src/Tests/Texts.antt =====
-- The ticket files that the tests run on.
use agent_task.Prelude.{◌++◌}
use agent_task.Text.{Bytes, codes}

abbrev ticket_text : Bytes → Bytes → Bytes
ticket_text status blocked_by =
    codes "---\nid: aaa\nschema_version: 1\nblocked-by: "
    ++ blocked_by
    ++ codes "\ncreated: t\npriority: 2\nstatus: "
    ++ status
    ++ codes "\ntype: task\n---\n# A title\n"

abbrev pub open_text : Bytes
open_text = ticket_text (codes "open") (codes "[]")

abbrev pub started_text : Bytes
started_text = ticket_text (codes "in_progress") (codes "[bbb]")
