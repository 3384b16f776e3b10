-- ===== src/Model/Dates.antt =====
-- The times of a ticket behind each command.
use agent_task.Prelude.{ℕ, ◌≤◌, ◌≡◌, refl, ap, ◌∙◌, true, false, not, some, List, [], arith, ltb}
use agent_task.Text.{Bytes, equal}
use agent_task.Model.{
  Ticket, TicketType, Status, open_status, in_progress, closed, is_open, is_in_progress, is_closed,
}
use agent_task.Model.Commands.{
  UserCreateInput, claimed, finished, reopened, with_blockers, new_ticket,
}
use agent_task.Model.Invariant.{IsDated}

not_below : (n k : ℕ) → ltb n k ≡ false → k ≤ n
not_below n k h = ground arith

same_time : (at c k : ℕ) → some at ≡ some c → k ≤ at → k ≤ c
same_time at c k h l = ground arith

pub open-not_closed : (s : Status) → is_open s ≡ true → is_closed s ≡ false
open-not_closed open_status h = refl
open-not_closed in_progress h = refl
open-not_closed closed h = cc h

pub claimed-IsDated :
    (by : Bytes) (at : ℕ) (tk : Ticket)
    → IsDated tk
    → equal by [] ≡ false
    → is_closed tk.status ≡ false
    → ltb at tk.created_at ≡ false
    → IsDated (claimed by at tk)
claimed-IsDated by at tk d named was_open late = record {
  closed_iff = d.closed_iff ∙ was_open;
  claimed_iff = refl;
  claimant_iff = named;
  closed_late = d.closed_late;
  claimed_late = λ c e. same_time at c tk.created_at e (not_below at tk.created_at late);
}

pub finished-IsDated :
    (at : ℕ) (tk : Ticket) → ltb at tk.created_at ≡ false → IsDated (finished at tk)
unfolding equal
finished-IsDated at tk late = record {
  closed_iff = refl;
  claimed_iff = refl;
  claimant_iff = refl;
  closed_late = λ c e. same_time at c tk.created_at e (not_below at tk.created_at late);
  claimed_late = λ c e. cc e;
}

pub reopened-IsDated :
    (tk : Ticket) → IsDated tk → is_in_progress tk.status ≡ false → IsDated (reopened tk)
reopened-IsDated tk d h = record {
  closed_iff = refl;
  claimed_iff = d.claimed_iff ∙ h;
  claimant_iff = d.claimant_iff ∙ ap not h;
  closed_late = λ c e. cc e;
  claimed_late = d.claimed_late;
}

pub with_blockers-IsDated :
    (ids : List Bytes) (tk : Ticket) → IsDated tk → IsDated (with_blockers ids tk)
with_blockers-IsDated ids tk d = record {
  closed_iff = d.closed_iff;
  claimed_iff = d.claimed_iff;
  claimant_iff = d.claimant_iff;
  closed_late = d.closed_late;
  claimed_late = d.claimed_late;
}

pub new_ticket-IsDated :
    (user : UserCreateInput) (id : Bytes) (at : ℕ) (ticket_type : TicketType) (priority : ℕ)
    → IsDated (new_ticket user id at ticket_type priority)
unfolding equal
new_ticket-IsDated user id at ticket_type priority = record {
  closed_iff = refl;
  claimed_iff = refl;
  claimant_iff = refl;
  closed_late = λ c e. cc e;
  claimed_late = λ c e. cc e;
}
