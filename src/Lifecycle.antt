-- ===== src/Lifecycle.antt =====
-- internal/cli: what the commands start, close, reopen, block and unblock do to the text of a ticket
-- while they hold its lock. Each is the handler that the command gives to `WithTicketLock`: it
-- returns the new text, or an error and then nothing is written.
pub mod Handlers
pub mod Reopen
pub mod Blockers
use agent_task.Prelude.{ℕ, ◌+◌, Option, none, some, List, [], ◌∷◌, ◌++◌, if◌then◌else◌, take, drop}
use agent_task.Result.{
  Result, ok, err, ◌>>=◌, ticket_not_open, ticket_not_started, ticket_already_closed,
  ticket_not_in_progress, ticket_already_open, ticket_not_closed, already_blocked_by,
  not_blocked_by,
}
use agent_task.Text.{Bytes, codes, equal, contains}
use agent_task.Content.{
  get_status, update_status, add_field, remove_field, get_blocked_by, update_blocked_by,
}
use agent_task.Ticket.{status_open, status_in_progress, status_closed}

-- start.go
unfoldable pub start_content : Bytes → Result Bytes
start_content content = do
  status ← get_status content
  if equal status status_open then update_status content status_in_progress else err ticket_not_open

-- close.go, at the time `now` as RFC 3339 text.
unfoldable pub close_content : Bytes → Bytes → Result Bytes
close_content now content = do
  status ← get_status content
  if equal status status_open
      then err ticket_not_started
      else if equal status status_closed
      then err ticket_already_closed
      else if equal status status_in_progress
      then (update_status content status_closed >>= λ changed.
          add_field changed (codes "closed") now)
      else err ticket_not_in_progress

-- reopen.go; a text with no `closed` line is kept.
abbrev or_else : Bytes → Option Bytes → Result Bytes
or_else content none = ok content
or_else content (some removed) = ok removed

unfoldable pub reopen_content : Bytes → Result Bytes
reopen_content content = do
  status ← get_status content
  if equal status status_open
      then err ticket_already_open
      else if equal status status_in_progress
      then err ticket_not_closed
      else if equal status status_closed
      then (update_status content status_open >>= λ changed.
          or_else changed (remove_field changed (codes "closed")))
      else err ticket_not_closed

-- block.go
unfoldable pub block_content : Bytes → Bytes → Result Bytes
block_content blocker content = do
  blocked_by ← get_blocked_by content
  if contains blocked_by blocker
      then err already_blocked_by
      else update_blocked_by content (blocked_by ++ blocker ∷ [])

-- `slices.Index`.
unfoldable pub index_of : List Bytes → Bytes → Option ℕ
index_of [] a = none
index_of (x ∷ xs) a =
    let rest = index_of xs a in
    if equal x a then some 0 else elim rest [ none ↦ none | some i ↦ some (i + 1) ]

-- unblock.go
abbrev cut : Bytes → List Bytes → Option ℕ → Result Bytes
cut content blocked_by none = err not_blocked_by
cut content blocked_by (some idx) =
    update_blocked_by content (take idx blocked_by ++ drop (idx + 1) blocked_by)

unfoldable pub unblock_content : Bytes → Bytes → Result Bytes
unblock_content blocker content = do
  blocked_by ← get_blocked_by content
  cut content blocked_by (index_of blocked_by blocker)
