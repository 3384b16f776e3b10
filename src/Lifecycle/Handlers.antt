-- ===== src/Lifecycle/Handlers.antt =====
-- The three commands that change a ticket's status take it from one status to the next.
use agent_task.Prelude.{
  ◌≡◌, refl, sym, ap, ◌∙◌, Bool, true, false, some, inl, inr, arith, if◌then◌else◌, Bool-cases,
  Option-cases,
}
use agent_task.Result.{
  Error, ticket_already_closed, ticket_not_started, ticket_not_in_progress, ticket_not_closed,
  ticket_already_open, Result, ok, err, ◌>>=◌, >>=-eq-ok,
}
use agent_task.Text.{Bytes, codes, equal, equal_iff, Lacks}
use agent_task.Content.{
  newline, status_prefix, get_field, get_status, update_status, add_field, remove_field,
}
use agent_task.Content.Edits.{clash}
use agent_task.Content.Add.{get_field-add}
use agent_task.Content.Status.{update_status_lem}
use agent_task.Content.Remove.{get_field-remove}
use agent_task.Ticket.{status_open, status_in_progress, status_closed}
use agent_task.Lifecycle.Reopen.{closed-IsField}
use agent_task.Lifecycle.{start_content, close_content, reopen_content, or_else}

-- The commands that change a status, and the one before and the one behind each of them.
pub data StatusCommand : Type 0 where
  start : StatusCommand
  close : Bytes → StatusCommand
  reopen : StatusCommand

abbrev pub run : StatusCommand → Bytes → Result Bytes
run start content = start_content content
run (close now) content = close_content now content
run reopen content = reopen_content content

abbrev pub before : StatusCommand → Bytes
before start = status_open
before (close now) = status_in_progress
before reopen = status_closed

abbrev pub after : StatusCommand → Bytes
after start = status_in_progress
after (close now) = status_closed
after reopen = status_open

abbrev pub IsTimed : StatusCommand → Type 0
IsTimed start = Unit
IsTimed (close now) = Lacks newline now
IsTimed reopen = Unit

updated_status :
    (content status changed : Bytes)
    → Lacks newline status
    → update_status content status ≡ ok changed
    → get_status changed ≡ ok status
updated_status content status changed h e = elim (update_status_lem content status h) [
  | inl (_, fails) ↦ cc (fails, e)
  | inr (old, other, _, done, reads, _) ↦
      let same : other ≡ changed = cc (done, e) in ap get_status (sym same) ∙ reads
]

get_status-same :
    (content changed : Bytes)
    → get_field status_prefix changed ≡ get_field status_prefix content
    → get_status changed ≡ get_status content
unfolding get_status
get_status-same content changed h = rw (h, get_status)

removed_status :
    (content changed : Bytes)
    → or_else content (remove_field content (codes "closed")) ≡ ok changed
    → get_status changed ≡ get_status content
removed_status content changed e = elim (Option-cases (remove_field content (codes "closed"))) [
  | inl missing ↦ let same : content ≡ changed = cc (rw missing at e) in ap get_status (sym same)
  | inr (removed, found) ↦
      let same : removed ≡ changed = cc (rw found at e) in
      get_status-same content changed (
        get_field-remove (codes "closed") content changed status_prefix (unfold clash in refl)
          (found ∙ ap some same))
]

added_status :
    (now content changed : Bytes)
    → Lacks newline now
    → add_field content (codes "closed") now ≡ ok changed
    → get_status changed ≡ get_status content
added_status now content changed h e = get_status-same content changed (
    get_field-add (codes "closed") content now changed status_prefix (closed-IsField now h)
      (unfold clash in refl) e)

-- The guard of a command that succeeds held.
guard_equal :
    (a b : Bytes) {c : Bytes} (m : Result Bytes) (x : Error)
    → (if equal a b then m else err x) ≡ ok c
    → (a ≡ b) × (m ≡ ok c)
guard_equal a b {c} m x e = elim (Bool-cases (equal a b)) [
  | inl same ↦ ((equal_iff a b).0 same, rw same at e)
  | inr other ↦ cc (rw other at e)
]

-- A refusal: a test that holds gives an error, so a command that succeeds went on.
refused :
    (b : Bool) (x : Error) {c : Bytes} (m : Result Bytes)
    → (if b then err x else m) ≡ ok c
    → m ≡ ok c
refused true x m h = cc h
refused false x m h = h

start_lem :
    (content changed : Bytes)
    → start_content content ≡ ok changed
    → (get_status content ≡ ok status_open) × (get_status changed ≡ ok status_in_progress)
unfolding start_content
start_lem content changed e =
    let (status, reads, rest) = >>=-eq-ok (get_status content) _ e in
    let (same, done) = guard_equal _ _ _ _ rest in
    (reads ∙ ap ok same, updated_status content status_in_progress changed (ground arith) done)

close_lem :
    (now content changed : Bytes)
    → Lacks newline now
    → close_content now content ≡ ok changed
    → (get_status content ≡ ok status_in_progress) × (get_status changed ≡ ok status_closed)
unfolding close_content
close_lem now content changed h e =
    let (status, reads, rest) = >>=-eq-ok (get_status content) _ e in
    let (same, done) =
      guard_equal status status_in_progress (update_status content status_closed >>= add)
        ticket_not_in_progress
        (refused (equal status status_closed) ticket_already_closed _
          (refused (equal status status_open) ticket_not_started _ rest)) in
    let (marked, updated, added) = >>=-eq-ok (update_status content status_closed) add done in
    (
      reads ∙ ap ok same,
      added_status now marked changed h added
          ∙ updated_status content status_closed marked (ground arith) updated,
    )
  where
    add : Bytes → Result Bytes
    add text = add_field text (codes "closed") now

reopen_lem :
    (content changed : Bytes)
    → reopen_content content ≡ ok changed
    → (get_status content ≡ ok status_closed) × (get_status changed ≡ ok status_open)
unfolding reopen_content
reopen_lem content changed e =
    let (status, reads, rest) = >>=-eq-ok (get_status content) _ e in
    let (same, done) =
      guard_equal status status_closed (update_status content status_open >>= clear)
        ticket_not_closed
        (refused (equal status status_in_progress) ticket_not_closed _
          (refused (equal status status_open) ticket_already_open _ rest)) in
    let (opened, updated, removed) = >>=-eq-ok (update_status content status_open) clear done in
    (
      reads ∙ ap ok same,
      removed_status opened changed removed
          ∙ updated_status content status_open opened (ground arith) updated,
    )
  where
    clear : Bytes → Result Bytes
    clear text = or_else text (remove_field text (codes "closed"))

-- Start, close and reopen, at a time without a newline, write a new text only for a ticket in the
-- one status that the command is for, and the new text is in the status behind it.
pub run_lem :
    (command : StatusCommand) (content changed : Bytes)
    → IsTimed command
    → run command content ≡ ok changed
    → (get_status content ≡ ok (before command)) × (get_status changed ≡ ok (after command))
run_lem start content changed h e = start_lem content changed e
run_lem (close now) content changed h e = close_lem now content changed h e
run_lem reopen content changed h e = reopen_lem content changed e
