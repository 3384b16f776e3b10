-- ===== src/Model/Reachable.antt =====
-- The states that the commands of the model lead to.
use agent_task.Prelude.{ℕ, ◌≡◌, refl, Option, List, []}
use agent_task.Text.{Bytes}
use agent_task.Model.{Outcome, done, Ticket, find}
use agent_task.Model.Commands.{UserCreateInput, create, start, close, reopen, block, unblock}
use agent_task.Model.Invariant.{IsConsistent}
use agent_task.Model.Keeps.{
  start-IsConsistent, close-IsConsistent, reopen-IsConsistent, block-IsConsistent,
  unblock-IsConsistent,
}
use agent_task.Model.Creation.{create-IsConsistent}

-- A command with what it is given: ids, texts, and generated ids and times.
pub data Command : Type 0 where
  creation : UserCreateInput → Bytes → Bytes → Command
  starting : Bytes → Bytes → Bytes → Command
  closing : Bytes → Bytes → Command
  reopening : Bytes → Command
  blocking unblocking : Bytes → Bytes → Command

module _ (parse_time : Bytes → Option ℕ) where
  abbrev pub run : Command → List Ticket → Outcome (List Ticket)
  run (creation user id text) m = create parse_time m user id text
  run (starting id claimed_by text) m = start parse_time m id claimed_by text
  run (closing id text) m = close parse_time m id text
  run (reopening id) m = reopen m id
  run (blocking id blocker_id) m = block m id blocker_id
  run (unblocking id blocker_id) m = unblock m id blocker_id

  pub run-IsConsistent :
      (c : Command) (m changed : List Ticket)
      → IsConsistent m
      → run c m ≡ done changed
      → IsConsistent changed
  run-IsConsistent (creation user id text) m changed h e =
      create-IsConsistent m h parse_time user id text changed e
  run-IsConsistent (starting id claimed_by text) m changed h e =
      start-IsConsistent m h parse_time id claimed_by text changed e
  run-IsConsistent (closing id text) m changed h e =
      close-IsConsistent m h parse_time id text changed e
  run-IsConsistent (reopening id) m changed h e = reopen-IsConsistent m h id changed e
  run-IsConsistent (blocking id blocker_id) m changed h e =
      block-IsConsistent m h id blocker_id changed e
  run-IsConsistent (unblocking id blocker_id) m changed h e =
      unblock-IsConsistent m h id blocker_id changed e

  -- The states behind any sequence of commands that return; a command that does not return leaves
  -- the state as it is.
  pub data Reachable : List Ticket → Type 0 where
    at_start : Reachable []
    behind :
        {m changed : List Ticket} (c : Command)
        → Reachable m
        → run c m ≡ done changed
        → Reachable changed

  empty-IsConsistent : IsConsistent []
  unfolding find
  empty-IsConsistent = record { no_empty = refl; dated = λ x t h. cc h; linked = λ x t h. cc h }

  -- Whatever commands are run, the blockers and the parent of each ticket exist, no open ticket stands
  -- below a closed parent, a ticket has a time of closing exactly if it is closed and a claim exactly if
  -- it is started, and neither time is before its creation.
  pub Reachable-IsConsistent : (m : List Ticket) → Reachable m → IsConsistent m
  Reachable-IsConsistent _ at_start = empty-IsConsistent
  Reachable-IsConsistent _ (behind {m} {changed} c r e) =
      run-IsConsistent c m changed (Reachable-IsConsistent m r) e
