-- ===== src/Content/Status.antt =====
-- `UpdateStatusInContent` against `GetStatusFromContent`.
use agent_task.Prelude.{◌≡◌, ◌⊎◌, refl, true, inl, inr, arith, All-append}
use agent_task.Result.{ok, err, status_not_found}
use agent_task.Text.{Bytes, equal, Lacks}
use agent_task.Content.Edits.{clash, IsField, update_field_lem}
use agent_task.Content.{newline, status_prefix, get_field, get_status, update_status}

pub status-IsField : (status : Bytes) → Lacks newline status → IsField status_prefix status
unfolding equal
status-IsField status h = record {
  one_line = All-append _ status_prefix status (ground arith) h;
  inside = refl;
}

-- A text with no status line is refused by both. Any other text is updated: the new one reads as
-- the new status, and every field with another prefix reads as before.
pub update_status_lem :
    (content status : Bytes)
    → Lacks newline status
    → ((get_status content ≡ err status_not_found)
        × (update_status content status ≡ err status_not_found))
      ⊎ ((old changed : Bytes) × (get_status content ≡ ok old)
          × (update_status content status ≡ ok changed)
          × (get_status changed ≡ ok status)
          × ((q : Bytes)
              → clash status_prefix q ≡ true
              → get_field q changed ≡ get_field q content))
unfolding update_status get_status
update_status_lem content status h =
    elim (update_field_lem status_prefix status_not_found content status
      (status-IsField status h)) [
        | inl (absent, fails) ↦ inl (rw (absent, get_status), fails)
        | inr (old, changed, found, done, edits) ↦
            inr (
              old,
              changed,
              rw (found, get_status),
              done,
              rw (edits.reads, get_status),
              edits.keeps,
            )
      ]
