-- ===== src/Content.antt =====
-- internal/ticket/ticket.go: reading and editing one frontmatter field in the text of a ticket.
-- Every reader and every editor splits the content into lines and runs the same loop: a line `---`
-- opens the frontmatter, a second one ends the search, and between them the first line with the
-- field's prefix is the one. The readers share `field_value`, the editors `line_index`.
pub mod Locate
pub mod Edits
pub mod Insert
pub mod Add
pub mod Remove
pub mod BlockedBy
pub mod Status
use agent_task.Prelude.{
  ℕ, ◌+◌, Bool, true, false, not, ◌&&◌, ◌||◌, Option, none, some, List, [], ◌∷◌, ◌++◌,
  if◌then◌else◌, set, take, drop,
}
use agent_task.Result.{
  Error, Result, ok, err, status_not_found, field_insert_failed, blocked_by_not_found,
  invalid_field_value,
}
use agent_task.Text.{
  Bytes, codes, equal, has_prefix, trim_prefix, has_suffix, trim_suffix, trim_space, split, join,
}

abbrev pub newline : ℕ
newline = b'\n'

abbrev pub delimiter : Bytes
delimiter = codes "---"

abbrev pub status_prefix : Bytes
status_prefix = codes "status: "

abbrev pub blocked_by_prefix : Bytes
blocked_by_prefix = codes "blocked-by: "

abbrev pub parent_prefix : Bytes
parent_prefix = codes "parent: "

abbrev pub lines_of : Bytes → List Bytes
lines_of content = split content newline

abbrev pub join_lines : List Bytes → Bytes
join_lines lines = join lines (newline ∷ [])

-- The loop of the readers: the text behind the prefix on the first line that has it.
unfoldable pub field_value : Bytes → Bool → List Bytes → Option Bytes
field_value prefix in_frontmatter [] = none
field_value prefix in_frontmatter (line ∷ lines) =
    let opened = field_value prefix true lines in
    let rest = field_value prefix in_frontmatter lines in
    if equal line delimiter
    then (if in_frontmatter then none else opened)
    else if in_frontmatter && has_prefix line prefix
    then some (trim_prefix line prefix)
    else rest

-- The loop of the editors: the index of that line.
unfoldable pub line_index : Bytes → Bool → ℕ → List Bytes → Option ℕ
line_index prefix in_frontmatter idx [] = none
line_index prefix in_frontmatter idx (line ∷ lines) =
    let opened = line_index prefix true (idx + 1) lines in
    let rest = line_index prefix in_frontmatter (idx + 1) lines in
    if equal line delimiter
    then (if in_frontmatter then none else opened)
    else if in_frontmatter && has_prefix line prefix
    then some idx
    else rest

-- What the readers return before they handle a missing field.
unfoldable pub get_field : Bytes → Bytes → Option Bytes
unfolding field_value
get_field prefix content = field_value prefix false (lines_of content)

unfoldable pub get_status : Bytes → Result Bytes
unfolding get_field
get_status content = elim (get_field status_prefix content) [
  | none ↦ err status_not_found
  | some v ↦ ok v
]

unfoldable pub get_parent : Bytes → Bytes
unfolding get_field
get_parent content = elim (get_field parent_prefix content) [ none ↦ [] | some v ↦ v ]

-- `lines[lineIdx] = …` on the line found, and the error where none is.
unfoldable pub update_field : Bytes → Error → Bytes → Bytes → Result Bytes
unfolding line_index
update_field prefix missing content value =
    let lines = lines_of content in
    elim (line_index prefix false 0 lines) [
      | none ↦ err missing
      | some idx ↦ ok (join_lines (set lines idx (prefix ++ value)))
    ]

unfoldable pub update_status : Bytes → Bytes → Result Bytes
unfolding update_field
update_status content new_status = update_field status_prefix status_not_found content new_status

-- A new line below the status line.
unfoldable pub add_field : Bytes → Bytes → Bytes → Result Bytes
unfolding line_index
add_field content field value =
    let lines = lines_of content in
    elim (line_index status_prefix false 0 lines) [
      | none ↦ err field_insert_failed
      | some idx ↦
          let new_line = field ++ codes ": " ++ value in
          ok (join_lines (take (idx + 1) lines ++ (new_line ∷ drop (idx + 1) lines)))
    ]

-- `none` is the nil slice: the field was not found.
unfoldable pub remove_field : Bytes → Bytes → Option Bytes
unfolding line_index
remove_field content field =
    let lines = lines_of content in
    elim (line_index (field ++ codes ": ") false 0 lines) [
      | none ↦ none
      | some idx ↦ some (join_lines (take idx lines ++ drop (idx + 1) lines))
    ]

-- `formatBlockedBy`.
unfoldable pub format_blocked_by : List Bytes → Bytes
format_blocked_by [] = codes "[]"
format_blocked_by (id ∷ ids) = codes "[" ++ (join (id ∷ ids) (codes ", ") ++ codes "]")

-- The loop of `parseBlockedByValue`: parts are trimmed, and empty ones are dropped.
unfoldable pub keep_ids : List Bytes → List Bytes
keep_ids [] = []
keep_ids (p ∷ parts) =
    let id = trim_space p in let rest = keep_ids parts in if equal id [] then rest else id ∷ rest

-- `parseBlockedByValue`.
unfoldable pub parse_blocked_by : Bytes → Result (List Bytes)
unfolding keep_ids
parse_blocked_by text =
    let value = trim_space text in
    let inner = trim_prefix (trim_suffix value (codes "]")) (codes "[") in
    if equal value []
    then err invalid_field_value
    else if equal value (codes "[]")
    then ok []
    else if not (has_prefix value (codes "[")) || not (has_suffix value (codes "]"))
    then err invalid_field_value
    else if equal inner []
    then ok []
    else ok (keep_ids (split inner b','))

-- A ticket with no `blocked-by` line has no blockers.
unfoldable pub get_blocked_by : Bytes → Result (List Bytes)
unfolding get_field
get_blocked_by content = elim (get_field blocked_by_prefix content) [
  | none ↦ ok []
  | some v ↦ parse_blocked_by v
]

unfoldable pub update_blocked_by : Bytes → List Bytes → Result Bytes
unfolding update_field
update_blocked_by content blocked_by =
    update_field blocked_by_prefix blocked_by_not_found content (format_blocked_by blocked_by)
