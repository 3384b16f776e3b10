-- ===== src/Lifecycle/Reopen.antt =====
-- Closing a ticket and reopening it leaves no trace but the status.
use agent_task.Prelude.{◌≡◌, refl, ap, ◌∙◌, false, none, some, inl, inr, arith, All-append}
use agent_task.Result.{ok, err, status_not_found}
use agent_task.Text.{Bytes, codes, equal, trim_prefix-append, Lacks}
use agent_task.Content.Locate.{Found, search_cases}
use agent_task.Content.Edits.{
  replaced-Edits, clash, IsField, update_field-Found, replaced_line, Found-replaced,
  get_field-Found,
}
use agent_task.Content.Insert.{
  Adds, Inserted-Adds, prefix_of, add_field-Found, inserted_line, Found-inserted, lines_of-inserted,
}
use agent_task.Content.Status.{status-IsField}
use agent_task.Content.{
  newline, status_prefix, lines_of, get_field, get_status, update_status, remove_field,
}
use agent_task.Ticket.{status_open, status_in_progress, status_closed}
use agent_task.Lifecycle.{close_content, reopen_content}

abbrev pub closed_prefix : Bytes
closed_prefix = prefix_of (codes "closed")

pub closed-IsField : (now : Bytes) → Lacks newline now → IsField closed_prefix now
unfolding equal
closed-IsField now h = record {
  one_line = All-append _ closed_prefix now (ground arith) h;
  inside = refl;
}

-- The two texts of the way there and back, from the line that holds the status.
module _ (content now : Bytes) (f : Found status_prefix false (lines_of content)) where
  marked : Bytes
  marked = replaced_line status_prefix content status_closed f

  opened : Bytes
  opened = replaced_line status_prefix content status_open f

  marked_found : Found status_prefix false (lines_of marked)
  unfolding marked
  marked_found =
      Found-replaced status_prefix content status_closed f
        (status-IsField status_closed (ground arith))

  closed_text : Bytes
  closed_text = inserted_line marked (codes "closed") now marked_found

  closed_found : Lacks newline now → Found status_prefix false (lines_of closed_text)
  unfolding closed_text
  closed_found h = Found-inserted marked (codes "closed") now marked_found (closed-IsField now h)

  opened_found : Found status_prefix false (lines_of opened)
  unfolding opened
  opened_found =
      Found-replaced status_prefix content status_open f (status-IsField status_open (ground arith))

  -- Reopening first marks the closed text as open, which is the open text with the closing time.
  reopened_text :
      (h : Lacks newline now)
      → replaced_line status_prefix closed_text status_open (closed_found h)
        ≡ inserted_line opened (codes "closed") now opened_found
  unfolding closed_found opened_found marked_found opened closed_text Found-replaced Found-inserted
  reopened_text h = refl

  closed_missing :
      get_field closed_prefix content ≡ none
      → (status : Bytes) (h : Lacks newline status)
      → get_field closed_prefix (replaced_line status_prefix content status f) ≡ none
  closed_missing absent status h =
      (replaced-Edits status_prefix content status f (status-IsField status h)).keeps closed_prefix
        (unfold clash in refl)
      ∙ absent

  marked-Adds :
      Lacks newline now
      → get_field closed_prefix content ≡ none
      → Adds marked (codes "closed") now closed_text
  unfolding marked closed_text
  marked-Adds h absent =
      Inserted-Adds marked closed_text (codes "closed") now (closed-IsField now h)
        (unfold clash in refl) (closed_missing absent status_closed (ground arith))
        (record {
          found = marked_found;
          lines = lines_of-inserted marked (codes "closed") now marked_found (closed-IsField now h);
        })

  opened_removes :
      Lacks newline now
      → get_field closed_prefix content ≡ none
      → remove_field (inserted_line opened (codes "closed") now opened_found) (codes "closed")
        ≡ some opened
  unfolding opened
  opened_removes h absent =
      (Inserted-Adds opened (inserted_line opened (codes "closed") now opened_found)
        (codes "closed") now (closed-IsField now h) (unfold clash in refl)
        (closed_missing absent status_open (ground arith))
        (record {
          found = opened_found;
          lines = lines_of-inserted opened (codes "closed") now opened_found (closed-IsField now h);
        })).removes

  closed_status : Lacks newline now → get_status closed_text ≡ ok status_closed
  unfolding closed_found marked_found closed_text Found-inserted Found-replaced get_status
  closed_status h =
      rw (get_field-Found status_prefix closed_text (closed_found h), get_status)
        (ap ok (trim_prefix-append status_prefix status_closed))

  close_text :
      get_status content ≡ ok status_in_progress → close_content now content ≡ ok closed_text
  unfolding close_content update_status equal closed_text marked
  close_text e = rw e (
      rw (update_field-Found status_prefix content status_closed f status_not_found)
        (add_field-Found marked (codes "closed") now marked_found))

  reopen_text :
      Lacks newline now
      → get_field closed_prefix content ≡ none
      → reopen_content closed_text ≡ ok opened
  unfolding reopen_content update_status equal
  reopen_text h absent = rw (closed_status h) (
      rw (
        update_field-Found status_prefix closed_text status_open (closed_found h) status_not_found,
        reopened_text h,
        opened_removes h absent,
      ))

no_status :
    (content : Bytes)
    → get_field status_prefix content ≡ none
    → get_status content ≡ err status_not_found
unfolding get_status
no_status content h = rw (h, get_status)

-- A started ticket without a `closed` field is closed, and the new text has the status and the time.
-- Reopening that text gives the very text that the first one has with the status set to open.
pub reopen-close :
    (content now : Bytes)
    → Lacks newline now
    → get_status content ≡ ok status_in_progress
    → get_field closed_prefix content ≡ none
    → (closed_text opened : Bytes) × (close_content now content ≡ ok closed_text)
      × (get_status closed_text ≡ ok status_closed)
      × (get_field closed_prefix closed_text ≡ some now)
      × (reopen_content closed_text ≡ ok opened)
      × (update_status content status_open ≡ ok opened)
unfolding update_status opened
reopen-close content now h e absent = elim (search_cases status_prefix (lines_of content) false 0) [
  | inl (missing, no_index) ↦ cc (no_status content (unfold get_field in missing), e)
  | inr f ↦ (
    closed_text content now f,
    opened content now f,
    close_text content now f e,
    closed_status content now f h,
    (marked-Adds content now f h absent).edits.reads,
    reopen_text content now f h absent,
    update_field-Found status_prefix content status_open f status_not_found,
  )
]
