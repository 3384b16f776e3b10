-- ===== src/Model/Commands.antt =====
-- The commands of spec.go that change the model. Each returns the new list of tickets; where it
-- returns an error, the source has changed nothing either.
use agent_task.Prelude.{
  ℕ, suc, not, Option, none, some, List, [], ◌∷◌, ◌++◌, take, drop, ltb, ◌==◌, if◌then◌else◌,
}
use agent_task.Text.{Bytes, equal, less, contains, trim_space, ℤ, pos, negsuc}
use agent_task.Lifecycle.{index_of}
use agent_task.Model.{
  Outcome, done, refused, ◌>>=◌, refuse_if, panic_if, open_status, in_progress, closed, TicketType,
  task, Ticket, is_open, is_in_progress, is_closed, find, is_some, modify, deref, lookup_or,
  to_type, to_priority, to_time, id_required, ticket_not_found, ticket_already_exists,
  title_required, blocker_id_required, blocker_not_found, cant_block_self, already_blocked,
  not_blocked, blocker_cycle, parent_not_found, parent_already_closed, has_open_children,
  cant_close_open, cant_close_closed, cant_reopen_open, cant_reopen_in_progress,
  closed_before_created, started_before_created, duplicate_blocker, ticket_closed,
  claimed_by_required, content_required, empty_tag, duplicate_tag,
}
use agent_task.Model.Graph.{find_open_child, find_blocker_cycle_path, can_start}

-- `UserCreateInput`.
pub record UserCreateInput : Type 0 where
  pub title : Bytes
  pub content : Bytes
  pub ticket_type : Bytes
  pub priority : ℤ
  pub parent_id : Bytes
  pub blocked_by : List Bytes
  pub tags : List Bytes

-- An empty type and the priority 0 stand for the defaults.
unfoldable pub create_type : Bytes → Outcome TicketType
create_type t = if equal t [] then done task else to_type t

unfoldable pub create_priority : ℤ → Outcome ℕ
create_priority (negsuc n) = to_priority (negsuc n)
create_priority (pos p) = if p == 0 then done 2 else to_priority (pos p)

unfoldable pub check_parent : List Ticket → Bytes → Outcome (Unit {0})
check_parent m parent_id =
    if equal parent_id []
    then done tt
    else lookup_or parent_not_found (find m parent_id) >>= λ parent.
        refuse_if (is_closed parent.status) parent_already_closed

-- The loop over the blockers, with the ones seen before.
unfoldable pub check_blockers : List Ticket → List Bytes → List Bytes → Outcome (Unit {0})
check_blockers m seen [] = done tt
check_blockers m seen (b ∷ blockers) = do
  _ ← refuse_if (equal b []) blocker_id_required
  _ ← refuse_if (not (is_some (find m b))) blocker_not_found
  _ ← refuse_if (contains seen b) duplicate_blocker
  check_blockers m (b ∷ seen) blockers

unfoldable pub check_tags : List Bytes → List Bytes → Outcome (Unit {0})
check_tags seen [] = done tt
check_tags seen (tag ∷ tags) = do
  _ ← refuse_if (equal tag []) empty_tag
  _ ← refuse_if (contains seen tag) duplicate_tag
  check_tags (tag ∷ seen) tags

abbrev pub last_ticket : List Ticket → Option Ticket
last_ticket [] = none
last_ticket (t ∷ []) = some t
last_ticket (t ∷ u ∷ m) = last_ticket (u ∷ m)

-- The generated id and time must not be below those of the ticket created last.
abbrev pub check_order : Option Ticket → Bytes → ℕ → Outcome (Unit {0})
check_order none id created_at = done tt
check_order (some last) id created_at = do
  _ ← panic_if (not (less last.id id))
  panic_if (ltb created_at last.created_at)

abbrev pub new_ticket : UserCreateInput → Bytes → ℕ → TicketType → ℕ → Ticket
new_ticket user id created_at ticket_type priority = record {
  id = id;
  created_at = created_at;
  title = user.title;
  content = user.content;
  ticket_type = ticket_type;
  priority = priority;
  status = open_status;
  parent_id = user.parent_id;
  blocked_by = user.blocked_by;
  tags = user.tags;
  claimed_by = [];
  claimed_at = none;
  closed_at = none;
}

-- `Start` on the ticket.
abbrev pub claimed : Bytes → ℕ → Ticket → Ticket
claimed by at tk = record tk { status = in_progress; claimed_by = by; claimed_at = some at }

abbrev pub finished : ℕ → Ticket → Ticket
finished at tk = record tk {
  closed_at = some at;
  status = closed;
  claimed_by = [];
  claimed_at = none;
}

abbrev pub reopened : Ticket → Ticket
reopened tk = record tk { status = open_status; closed_at = none }

abbrev pub with_blockers : List Bytes → Ticket → Ticket
with_blockers ids tk = record tk { blocked_by = ids }

module _ (parse_time : Bytes → Option ℕ) where
  -- `Create`; the id that it returns is the one given.
  unfoldable pub create : List Ticket → UserCreateInput → Bytes → Bytes → Outcome (List Ticket)
  create m user id created_text = do
    _ ← refuse_if (equal id []) id_required
    created_at ← to_time (parse_time created_text)
    _ ← refuse_if (is_some (find m id)) ticket_already_exists
    _ ← refuse_if (equal (trim_space user.title) []) title_required
    _ ← refuse_if (equal (trim_space user.content) []) content_required
    ticket_type ← create_type user.ticket_type
    priority ← create_priority user.priority
    _ ← check_parent m user.parent_id
    _ ← check_blockers m [] user.blocked_by
    _ ← check_tags [] user.tags
    _ ← check_order (last_ticket m) id created_at
    done (m ++ new_ticket user id created_at ticket_type priority ∷ [])

  unfoldable pub start : List Ticket → Bytes → Bytes → Bytes → Outcome (List Ticket)
  start m id claimed_by claimed_text = do
    _ ← refuse_if (equal claimed_by []) claimed_by_required
    claimed_at ← to_time (parse_time claimed_text)
    tk ← lookup_or ticket_not_found (find m id)
    _ ← refuse_if (ltb claimed_at tk.created_at) started_before_created
    _ ← can_start m tk
    done (modify m id (claimed claimed_by claimed_at))

  unfoldable pub close : List Ticket → Bytes → Bytes → Outcome (List Ticket)
  close m id closed_text = do
    tk ← lookup_or ticket_not_found (find m id)
    _ ← refuse_if (is_open tk.status) cant_close_open
    _ ← refuse_if (is_closed tk.status) cant_close_closed
    _ ← refuse_if (not (equal (find_open_child id m) [])) has_open_children
    closed_at ← to_time (parse_time closed_text)
    _ ← refuse_if (ltb closed_at tk.created_at) closed_before_created
    done (modify m id (finished closed_at))

abbrev pub open_parent : List Ticket → Bytes → Outcome (Unit {0})
open_parent m parent_id =
    if equal parent_id []
    then done tt
    else deref (find m parent_id) >>= λ parent.
        refuse_if (is_closed parent.status) parent_already_closed

unfoldable pub reopen : List Ticket → Bytes → Outcome (List Ticket)
reopen m id = do
  tk ← lookup_or ticket_not_found (find m id)
  _ ← refuse_if (is_open tk.status) cant_reopen_open
  _ ← refuse_if (is_in_progress tk.status) cant_reopen_in_progress
  _ ← open_parent m tk.parent_id
  done (modify m id reopened)

unfoldable pub block : List Ticket → Bytes → Bytes → Outcome (List Ticket)
block m id blocker_id = do
  tk ← lookup_or ticket_not_found (find m id)
  _ ← refuse_if (is_closed tk.status) ticket_closed
  _ ← refuse_if (equal blocker_id []) blocker_id_required
  _ ← refuse_if (not (is_some (find m blocker_id))) blocker_not_found
  _ ← refuse_if (equal id blocker_id) cant_block_self
  _ ← refuse_if (contains tk.blocked_by blocker_id) already_blocked
  cycle ← find_blocker_cycle_path m id blocker_id
  elim cycle [
    | none ↦ done (modify m id (with_blockers (tk.blocked_by ++ blocker_id ∷ [])))
    | some path ↦ refused blocker_cycle
  ]

abbrev pub delete_at : List Bytes → Option ℕ → Outcome (List Bytes)
delete_at ids none = refused not_blocked
delete_at ids (some idx) = done (take idx ids ++ drop (suc idx) ids)

unfoldable pub unblock : List Ticket → Bytes → Bytes → Outcome (List Ticket)
unblock m id blocker_id = do
  tk ← lookup_or ticket_not_found (find m id)
  _ ← refuse_if (is_closed tk.status) ticket_closed
  ids ← delete_at tk.blocked_by (index_of tk.blocked_by blocker_id)
  done (modify m id (with_blockers ids))
