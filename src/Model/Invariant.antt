-- ===== src/Model/Invariant.antt =====
-- The well-formed states of the model.
use agent_task.Prelude.{ℕ, ◌≤◌, ◌≡◌, Bool, true, false, not, Option, none, some, List, [], All}
use agent_task.Text.{Bytes, equal}
use agent_task.Model.{Ticket, is_in_progress, is_closed, find, is_some}

abbrev pub has_time : Option ℕ → Bool
has_time none = false
has_time (some t) = true

-- A time of closing exactly if the ticket is closed, a claim exactly if it is started, and neither
-- before the time of creation.
pub record IsDated (t : Ticket) : Type 0 where
  pub closed_iff : has_time t.closed_at ≡ is_closed t.status
  pub claimed_iff : has_time t.claimed_at ≡ is_in_progress t.status
  pub claimant_iff : equal t.claimed_by [] ≡ not (is_in_progress t.status)
  pub closed_late : (c : ℕ) → t.closed_at ≡ some c → t.created_at ≤ c
  pub claimed_late : (c : ℕ) → t.claimed_at ≡ some c → t.created_at ≤ c

-- The blockers and the parent of a ticket exist, and below a closed parent it is closed too.
pub record IsLinked (m : List Ticket) (t : Ticket) : Type 0 where
  pub blockers : All (λ b. is_some (find m b) ≡ true) t.blocked_by
  pub parent : equal t.parent_id [] ≡ false → is_some (find m t.parent_id) ≡ true
  pub below_closed :
      (p : Ticket)
      → find m t.parent_id ≡ some p
      → is_closed p.status ≡ true
      → is_closed t.status ≡ true

pub record IsConsistent (m : List Ticket) : Type 0 where
  pub no_empty : find m [] ≡ none
  pub dated : (x : Bytes) (t : Ticket) → find m x ≡ some t → IsDated t
  pub linked : (x : Bytes) (t : Ticket) → find m x ≡ some t → IsLinked m t
