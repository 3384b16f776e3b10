-- ===== src/Frontmatter.antt =====
-- internal/ticket/ticket.go, `ParseTicketFrontmatter`: the scanner's lines, the parsing state, one
-- round of the loop, and the checks behind the loop. The test of a time, `time.Parse` at RFC 3339, is
-- a parameter. Reading the file is not part of it: the content is given.
pub mod Valid
use agent_task.Prelude.{
  ℕ, zero, suc, ◌+◌, Bool, true, false, not, ◌&&◌, ◌||◌, Option, none, some, List, [], ◌∷◌, reverse,
  ◌==◌, ltb, leb, if◌then◌else◌, length,
}
use agent_task.Result.{
  Result, ok, err, ◌>>=◌, missing_field, invalid_field_value, no_frontmatter, unclosed_frontmatter,
  frontmatter_too_long, no_title, scan_failed, missing_schema_version, unsupported_schema_version,
  closed_without_timestamp, closed_timestamp_on_non_closed,
}
use agent_task.Text.{
  Bytes, codes, equal, has_prefix, trim_prefix, behind, split, ℤ, pos, negsuc, parse_int,
}
use agent_task.Content.{delimiter, parse_blocked_by}
use agent_task.Ticket.{Summary, status_closed, is_valid_status, is_valid_type, is_valid_priority}

abbrev pub max_frontmatter_lines : ℕ
max_frontmatter_lines = 100

-- `bufio.ScanLines`: no line behind a last newline, and no carriage return at a line's end.
abbrev drop_last_empty : List Bytes → List Bytes
drop_last_empty [] = []
drop_last_empty ([] ∷ []) = []
drop_last_empty (line ∷ lines) = line ∷ drop_last_empty lines

unfoldable pub scan_lines : Bytes → List Bytes
scan_lines content = drop_last_empty (split content b'\n')

unfoldable pub drop_return : Bytes → Bytes
drop_return [] = []
drop_return (c ∷ []) = if c == b'\r' then [] else c ∷ []
drop_return (c ∷ d ∷ line) = c ∷ drop_return (d ∷ line)

-- A line of 64 KiB does not fit the scanner's buffer.
abbrev pub max_token_size : ℕ
max_token_size = 65536

pub record State : Type 0 where
  pub in_frontmatter : Bool
  pub started : Bool
  pub ended : Bool
  pub line_count : ℕ
  pub summary : Summary
  pub has_schema_version : Bool
  pub has_id : Bool
  pub has_status : Bool
  pub has_type : Bool
  pub has_priority : Bool
  pub has_created : Bool

-- `strings.Index(line, ": ")`: the text before the first `: ` and the text behind it.
unfoldable pub split_key : Bytes → Option (Bytes × Bytes)
split_key [] = none
split_key (c ∷ s) =
    let rest = split_key s in
    if has_prefix (c ∷ s) (codes ": ")
    then some ([], behind (c ∷ s) (codes ": "))
    else elim rest [ none ↦ none | some (key, value) ↦ some (c ∷ key, value) ]

-- An empty value is refused.
abbrev pub nonempty : Bytes → State → Result State
nonempty value s = if equal value [] then err invalid_field_value else ok s

unfoldable pub check_schema : Option ℤ → Result ℤ
check_schema none = err invalid_field_value
check_schema (some (negsuc n)) = err invalid_field_value
check_schema (some (pos n)) =
    if n == 0
    then err invalid_field_value
    else if n == 1
    then ok (pos n)
    else err unsupported_schema_version

unfoldable pub check_priority : Option ℤ → Result ℤ
check_priority none = err invalid_field_value
check_priority (some p) = if is_valid_priority p then ok p else err invalid_field_value

-- The cases of the loop's `switch key`.
unfoldable pub set_schema_version : Bytes → State → Result State
unfolding check_schema
set_schema_version value s = do
  _ ← nonempty value s
  version ← check_schema (parse_int value)
  ok (record s {
    summary = record s.summary { schema_version = version };
    has_schema_version = true;
  })

unfoldable pub set_id : Bytes → State → Result State
set_id value s =
    nonempty value (record s { summary = record s.summary { id = value }; has_id = true })

unfoldable pub set_status : Bytes → State → Result State
set_status value s =
    if equal value []
    then err invalid_field_value
    else if not (is_valid_status value)
    then err invalid_field_value
    else ok (record s { summary = record s.summary { status = value }; has_status = true })

unfoldable pub set_type : Bytes → State → Result State
set_type value s =
    if equal value []
    then err invalid_field_value
    else if not (is_valid_type value)
    then err invalid_field_value
    else ok (record s { summary = record s.summary { ticket_type = value }; has_type = true })

unfoldable pub set_priority : Bytes → State → Result State
unfolding check_priority
set_priority value s = do
  p ← check_priority (parse_int value)
  ok (record s { summary = record s.summary { priority = p }; has_priority = true })

unfoldable pub set_blocked_by : Bytes → State → Result State
set_blocked_by value s = do
  ids ← parse_blocked_by value
  ok (record s { summary = record s.summary { blocked_by = ids } })

unfoldable pub set_parent : Bytes → State → Result State
set_parent value s = nonempty value (record s { summary = record s.summary { parent = value } })

unfoldable pub set_assignee : Bytes → State → Result State
set_assignee value s = nonempty value (record s { summary = record s.summary { assignee = value } })

module _ (valid_time : Bytes → Bool) where
  unfoldable pub set_created : Bytes → State → Result State
  set_created value s =
      if equal value []
      then err invalid_field_value
      else if not (valid_time value)
      then err invalid_field_value
      else ok (record s { summary = record s.summary { created = value }; has_created = true })

  unfoldable pub set_closed : Bytes → State → Result State
  set_closed value s =
      if equal value []
      then err invalid_field_value
      else if not (valid_time value)
      then err invalid_field_value
      else ok (record s { summary = record s.summary { closed = value } })

  -- The `switch key` of the loop; a key that it does not name is passed over.
  unfoldable pub set_field : Bytes → Bytes → State → Result State
  set_field key value s =
      if equal key (codes "schema_version")
      then set_schema_version value s
      else if equal key (codes "id")
      then set_id value s
      else if equal key (codes "status")
      then set_status value s
      else if equal key (codes "type")
      then set_type value s
      else if equal key (codes "priority")
      then set_priority value s
      else if equal key (codes "created")
      then set_created value s
      else if equal key (codes "blocked-by")
      then set_blocked_by value s
      else if equal key (codes "parent")
      then set_parent value s
      else if equal key (codes "assignee")
      then set_assignee value s
      else if equal key status_closed
      then set_closed value s
      else ok s

  -- A line with no `: `, or with nothing before it, is passed over.
  unfoldable pub field_line : Bytes → State → Result State
  unfolding set_field
  field_line line s = elim (split_key line) [
    | none ↦ ok s
    | some (key, value) ↦ if equal key [] then ok s else set_field key value s
  ]

-- Behind a round the loop goes on, or it breaks at the title.
pub data Next : Type 0 where
  more : State → Next
  done : State → Next

abbrev pub continue_with : (State → Result State) → Next → Result State
continue_with go (more t) = go t
continue_with go (done t) = ok t

-- The title line, below the frontmatter.
unfoldable pub title_line : Bytes → State → Result Next
title_line line s =
    let title = trim_prefix line (codes "# ") in
    if s.ended && has_prefix line (codes "# ")
    then (if equal title []
        then err invalid_field_value
        else ok (done (record s { summary = record s.summary { title = title } })))
    else ok (more s)

-- The checks behind the loop.
unfoldable pub finish : State → Result Summary
finish s =
    if not s.started
    then err no_frontmatter
    else if not s.ended
    then err unclosed_frontmatter
    else if not s.has_schema_version
    then err missing_schema_version
    else if not s.has_id
    then err missing_field
    else if not s.has_status
    then err missing_field
    else if not s.has_type
    then err missing_field
    else if not s.has_priority
    then err missing_field
    else if not s.has_created
    then err missing_field
    else if equal s.summary.title []
    then err no_title
    else if equal s.summary.status status_closed && equal s.summary.closed []
    then err closed_without_timestamp
    else if not (equal s.summary.status status_closed) && not (equal s.summary.closed [])
    then err closed_timestamp_on_non_closed
    else ok s.summary

abbrev pub initial : Bytes → State
initial path = record {
  in_frontmatter = false;
  started = false;
  ended = false;
  line_count = 0;
  summary = record {
    schema_version = pos 0;
    id = [];
    status = [];
    blocked_by = [];
    parent = [];
    created = [];
    ticket_type = [];
    priority = pos 0;
    assignee = [];
    closed = [];
    title = [];
    path = path;
  };
  has_schema_version = false;
  has_id = false;
  has_status = false;
  has_type = false;
  has_priority = false;
  has_created = false;
}

module _ (valid_time : Bytes → Bool) where
  -- One round: the line limit, the delimiters, a field, or what stands below the frontmatter.
  unfoldable pub step : Bytes → State → Result Next
  unfolding field_line title_line
  step line before =
      let s = record before { line_count = before.line_count + 1 } in
      let opened = record s { started = true; in_frontmatter = true } in
      let closed = record s { in_frontmatter = false; ended = true } in
      if s.in_frontmatter && ltb max_frontmatter_lines s.line_count
      then err frontmatter_too_long
      else if equal line delimiter
      then (if not s.started then ok (more opened) else ok (more closed))
      else if s.in_frontmatter
      then (do t ← field_line valid_time line s; ok (more t))
      else title_line line s

  -- The loop. Where the scanner stops at a line that is too long, its error comes first.
  unfoldable pub scan : State → List Bytes → Result State
  scan s [] = ok s
  scan s (line ∷ lines) =
      if leb max_token_size (length line)
      then err scan_failed
      else step (drop_return line) s >>= continue_with (λ t. scan t lines)

  unfoldable pub parse_frontmatter : Bytes → Bytes → Result Summary
  unfolding scan finish
  parse_frontmatter path content = do s ← scan (initial path) (scan_lines content); finish s
