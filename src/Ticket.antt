-- ===== src/Ticket.antt =====
-- internal/ticket: the ticket and its summary, the statuses, types and priorities, and
-- `FormatTicket`.
use agent_task.Prelude.{Bool, true, false, ◌&&◌, List, [], ◌∷◌, ◌++◌, leb, if◌then◌else◌}
use agent_task.Text.{Bytes, codes, equal, contains, ℤ, pos, negsuc, format_int}
use agent_task.Content.{format_blocked_by}

abbrev pub status_open : Bytes
status_open = codes "open"

abbrev pub status_in_progress : Bytes
status_in_progress = codes "in_progress"

abbrev pub status_closed : Bytes
status_closed = codes "closed"

abbrev pub valid_statuses : List Bytes
valid_statuses = status_open ∷ status_in_progress ∷ status_closed ∷ []

abbrev pub valid_types : List Bytes
valid_types = codes "bug" ∷ codes "feature" ∷ codes "task" ∷ codes "epic" ∷ codes "chore" ∷ []

unfoldable pub is_valid_status : Bytes → Bool
unfolding contains
is_valid_status status = contains valid_statuses status

unfoldable pub is_valid_type : Bytes → Bool
unfolding contains
is_valid_type ticket_type = contains valid_types ticket_type

-- 1 to 4.
unfoldable pub is_valid_priority : ℤ → Bool
is_valid_priority (pos p) = leb 1 p && leb p 4
is_valid_priority (negsuc p) = false

-- `Ticket`; `created` is the RFC 3339 text of the time in UTC.
pub record Ticket : Type 0 where
  pub schema_version : ℤ
  pub id : Bytes
  pub status : Bytes
  pub blocked_by : List Bytes
  pub parent : Bytes
  pub created : Bytes
  pub ticket_type : Bytes
  pub priority : ℤ
  pub assignee : Bytes
  pub external_ref : Bytes
  pub title : Bytes
  pub description : Bytes
  pub design : Bytes
  pub acceptance : Bytes

-- `Summary`.
pub record Summary : Type 0 where
  pub schema_version : ℤ
  pub id : Bytes
  pub status : Bytes
  pub blocked_by : List Bytes
  pub parent : Bytes
  pub created : Bytes
  pub ticket_type : Bytes
  pub priority : ℤ
  pub assignee : Bytes
  pub closed : Bytes
  pub title : Bytes
  pub path : Bytes

-- The builder's writes, in order.
abbrev pub write_all : List Bytes → Bytes
write_all [] = []
write_all (piece ∷ pieces) = piece ++ write_all pieces

-- One field of the frontmatter, left out if it is empty and may be.
unfoldable pub field_text : Bool → Bytes → Bytes → Bytes
field_text omit_empty key value =
    if omit_empty && equal value []
    then []
    else write_all (key ∷ codes ": " ∷ value ∷ codes "\n" ∷ [])

-- An optional section of the body.
unfoldable pub section_text : Bytes → Bytes → Bytes
section_text header text = if equal text [] then [] else write_all (header ∷ text ∷ codes "\n" ∷ [])

-- `FormatTicket`. The fields are listed in the order of their keys, which is what sorting gives.
unfoldable pub format_ticket : Ticket → Bytes
unfolding field_text section_text
format_ticket t = write_all (
    codes "---\n"
    ∷ codes "id: "
    ∷ t.id
    ∷ codes "\n"
    ∷ codes "schema_version: "
    ∷ format_int t.schema_version
    ∷ codes "\n"
    ∷ field_text true (codes "assignee") t.assignee
    ∷ field_text false (codes "blocked-by") (format_blocked_by t.blocked_by)
    ∷ field_text false (codes "created") t.created
    ∷ field_text true (codes "external-ref") t.external_ref
    ∷ field_text true (codes "parent") t.parent
    ∷ field_text false (codes "priority") (format_int t.priority)
    ∷ field_text false (codes "status") t.status
    ∷ field_text false (codes "type") t.ticket_type
    ∷ codes "---\n"
    ∷ codes "# "
    ∷ t.title
    ∷ codes "\n"
    ∷ section_text (codes "\n") t.description
    ∷ section_text (codes "\n## Design\n\n") t.design
    ∷ section_text (codes "\n## Acceptance Criteria\n\n") t.acceptance
    ∷ [])
