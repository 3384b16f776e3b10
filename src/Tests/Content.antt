-- ===== src/Tests/Content.antt =====
-- Reading and editing fields at concrete texts.
use agent_task.Prelude.{◌≡◌, ◌⊎◌, refl, Bool, true, none, some, [], ◌∷◌, arith}
use agent_task.Result.{ok, err, status_not_found, field_insert_failed, blocked_by_not_found}
use agent_task.Text.{
  split, has_prefix, join, trim_prefix, parse_int, Bytes, codes, equal, contains, pos, trim_space,
}
use agent_task.Ticket.{Summary, is_valid_status, is_valid_type, is_valid_priority}
use agent_task.Content.{
  status_prefix, blocked_by_prefix, get_field, get_status, update_status, add_field, remove_field,
  format_blocked_by, parse_blocked_by, get_blocked_by, update_blocked_by,
}
use agent_task.Content.Edits.{clash, IsField}
use agent_task.Content.Insert.{prefix_of, Adds, add_field_lem}
use agent_task.Content.Remove.{get_field-remove}
use agent_task.Content.BlockedBy.{IsPlainId, parse_blocked_by-format, update_blocked_by_lem}
use agent_task.Content.Status.{update_status_lem}
use agent_task.Frontmatter.{
  scan_lines, step, drop_return, split_key, set_id, set_schema_version, set_blocked_by, set_created,
  set_priority, set_status, set_type, parse_frontmatter,
}
use agent_task.Frontmatter.Valid.{IsValid, parse_frontmatter-IsValid}
use agent_task.Tests.Texts.{open_text}

update_status_lem_example :
    ((get_status open_text ≡ err status_not_found)
      × (update_status open_text (codes "closed") ≡ err status_not_found))
    ⊎ ((old changed : Bytes) × (get_status open_text ≡ ok old)
        × (update_status open_text (codes "closed") ≡ ok changed)
        × (get_status changed ≡ ok (codes "closed"))
        × ((q : Bytes)
            → clash status_prefix q ≡ true
            → get_field q changed ≡ get_field q open_text))
update_status_lem_example = update_status_lem open_text (codes "closed") (ground arith)

abbrev assignee_ann : Bytes
assignee_ann = codes "ann"

assignee-IsField : IsField (prefix_of (codes "assignee")) assignee_ann
unfolding equal
assignee-IsField = record { one_line = ground arith; inside = refl }

no_assignee : get_field (prefix_of (codes "assignee")) open_text ≡ none
unfolding get_field split equal has_prefix
no_assignee = refl

assignee_clash : clash status_prefix (prefix_of (codes "assignee")) ≡ true
unfolding clash
assignee_clash = refl

add_field_lem_example :
    ((get_field status_prefix open_text ≡ none)
      × (add_field open_text (codes "assignee") assignee_ann ≡ err field_insert_failed))
    ⊎ ((changed : Bytes) × (add_field open_text (codes "assignee") assignee_ann ≡ ok changed)
        × Adds open_text (codes "assignee") assignee_ann changed)
add_field_lem_example =
    add_field_lem open_text (codes "assignee") assignee_ann assignee-IsField assignee_clash
      no_assignee

abbrev removed_text : Bytes
removed_text =
    codes
      "---\nid: aaa\nschema_version: 1\nblocked-by: []\npriority: 2\nstatus: open\ntype: task\n---\n# A title\n"

removed : remove_field open_text (codes "created") ≡ some removed_text
unfolding remove_field split equal has_prefix join
removed = refl

created_clash : clash (prefix_of (codes "created")) status_prefix ≡ true
unfolding clash
created_clash = refl

get_field-remove_example : get_field status_prefix removed_text ≡ get_field status_prefix open_text
get_field-remove_example =
    get_field-remove (codes "created") open_text removed_text status_prefix created_clash removed

bbb-IsPlainId : IsPlainId (codes "bbb")
unfolding equal trim_space
bbb-IsPlainId = record {
  not_empty = refl;
  no_comma = ground arith;
  no_newline = ground arith;
  trimmed = refl;
}

parse_blocked_by-format_example :
    parse_blocked_by (format_blocked_by (codes "bbb" ∷ codes "bbb" ∷ []))
    ≡ ok (codes "bbb" ∷ codes "bbb" ∷ [])
parse_blocked_by-format_example =
    parse_blocked_by-format (codes "bbb" ∷ codes "bbb" ∷ []) (bbb-IsPlainId, (bbb-IsPlainId, tt))

update_blocked_by_lem_example :
    ((get_field blocked_by_prefix open_text ≡ none)
      × (update_blocked_by open_text (codes "bbb" ∷ []) ≡ err blocked_by_not_found))
    ⊎ ((old changed : Bytes) × (get_field blocked_by_prefix open_text ≡ some old)
        × (update_blocked_by open_text (codes "bbb" ∷ []) ≡ ok changed)
        × (get_field blocked_by_prefix changed ≡ some (format_blocked_by (codes "bbb" ∷ [])))
        × (get_blocked_by changed ≡ ok (codes "bbb" ∷ []))
        × ((q : Bytes)
            → clash blocked_by_prefix q ≡ true
            → get_field q changed ≡ get_field q open_text))
update_blocked_by_lem_example =
    update_blocked_by_lem open_text (codes "bbb" ∷ []) (bbb-IsPlainId, tt)

abbrev any_time : Bytes → Bool
any_time t = true

abbrev summary : Summary
summary = record {
  schema_version = pos 1;
  id = codes "aaa";
  status = codes "open";
  blocked_by = [];
  parent = [];
  created = codes "t";
  ticket_type = codes "task";
  priority = pos 2;
  assignee = [];
  closed = [];
  title = codes "A title";
  path = codes "aaa.md";
}

parsed : parse_frontmatter any_time (codes "aaa.md") open_text ≡ ok summary
unfolding parse_frontmatter scan_lines split step equal drop_return split_key has_prefix set_id
    set_schema_version parse_int set_blocked_by parse_blocked_by trim_space trim_prefix set_created
    set_priority is_valid_priority set_status set_type is_valid_status is_valid_type contains
parsed = refl

parse_frontmatter-IsValid_example : IsValid any_time summary
parse_frontmatter-IsValid_example =
    parse_frontmatter-IsValid any_time (codes "aaa.md") open_text summary parsed
