-- ===== src/Model/Writes.antt =====
-- The commands of the model that write to one ticket and add no blocker.
use agent_task.Prelude.{
  ℕ, ◌≡◌, refl, true, not, Option, some, List, [], ltb, subst, none, Option-cases, inl, inr, ap,
  ◌∙◌, ◌++◌, ◌∷◌,
}
use agent_task.Text.{Bytes, equal, contains}
use agent_task.Lifecycle.{index_of}
use agent_task.Model.{
  done, Ticket, find, modify, lookup_or, is_open, is_in_progress, is_closed, to_time, is_some,
}
use agent_task.Model.Graph.{can_start, find_open_child, find_blocker_cycle_path}
use agent_task.Model.Commands.{
  block, start, close, reopen, unblock, claimed, finished, reopened, with_blockers, delete_at,
  open_parent,
}
use agent_task.Model.Inversion.{>>=-eq-done, passed, lookup_or-done}
use agent_task.Model.Chains.{IsAcyclic}
use agent_task.Model.Acyclic.{modify-IsAcyclic, contains-delete_at}

-- What a command does that adds no blocker: a write to one ticket.
pub record Writes (m changed : List Ticket) (id : Bytes) : Type 0 where
  pub ticket : Ticket
  pub write : Ticket → Ticket
  pub found : find m id ≡ some ticket
  pub same_id : (t : Ticket) → (write t).id ≡ t.id
  pub fewer :
      (y : Bytes)
      → contains (write ticket).blocked_by y ≡ true
      → contains ticket.blocked_by y ≡ true
  pub written : modify m id write ≡ changed

pub Writes-IsAcyclic :
    (m changed : List Ticket) (id : Bytes) → Writes m changed id → IsAcyclic m → IsAcyclic changed
Writes-IsAcyclic m changed id w a =
    subst IsAcyclic w.written (modify-IsAcyclic m id w.ticket w.write w.same_id w.found w.fewer a)

module _ (parse_time : Bytes → Option ℕ) where
  pub start-Writes :
      (m changed : List Ticket) (id claimed_by text : Bytes)
      → start parse_time m id claimed_by text ≡ done changed
      → Writes m changed id
  unfolding start
  start-Writes m changed id claimed_by text h =
      let (_, h1) = passed (equal claimed_by []) _ _ h in
      let (at, _, h2) = >>=-eq-done (to_time (parse_time text)) _ h1 in
      let (tk, e, h3) = >>=-eq-done (lookup_or _ (find m id)) _ h2 in
      let (_, h4) = passed (ltb at tk.created_at) _ _ h3 in
      let (_, _, h5) = >>=-eq-done (can_start m tk) _ h4 in
      record {
        ticket = tk;
        write = claimed claimed_by at;
        found = lookup_or-done _ (find m id) e;
        same_id = λ t. refl;
        fewer = λ y k. k;
        written = cc h5;
      }

  pub close-Writes :
      (m changed : List Ticket) (id text : Bytes)
      → close parse_time m id text ≡ done changed
      → Writes m changed id
  unfolding close
  close-Writes m changed id text h =
      let (tk, e, h1) = >>=-eq-done (lookup_or _ (find m id)) _ h in
      let (_, h2) = passed (is_open tk.status) _ _ h1 in
      let (_, h3) = passed (is_closed tk.status) _ _ h2 in
      let (_, h4) = passed (not (equal (find_open_child id m) [])) _ _ h3 in
      let (at, _, h5) = >>=-eq-done (to_time (parse_time text)) _ h4 in
      let (_, h6) = passed (ltb at tk.created_at) _ _ h5 in
      record {
        ticket = tk;
        write = finished at;
        found = lookup_or-done _ (find m id) e;
        same_id = λ t. refl;
        fewer = λ y k. k;
        written = cc h6;
      }

pub reopen-Writes :
    (m changed : List Ticket) (id : Bytes) → reopen m id ≡ done changed → Writes m changed id
unfolding reopen
reopen-Writes m changed id h =
    let (tk, e, h1) = >>=-eq-done (lookup_or _ (find m id)) _ h in
    let (_, h2) = passed (is_open tk.status) _ _ h1 in
    let (_, h3) = passed (is_in_progress tk.status) _ _ h2 in
    let (_, _, h4) = >>=-eq-done (open_parent m tk.parent_id) _ h3 in
    record {
      ticket = tk;
      write = reopened;
      found = lookup_or-done _ (find m id) e;
      same_id = λ t. refl;
      fewer = λ y k. k;
      written = cc h4;
    }

pub unblock-Writes :
    (m changed : List Ticket) (id blocker_id : Bytes)
    → unblock m id blocker_id ≡ done changed
    → Writes m changed id
unfolding unblock
unblock-Writes m changed id b h =
    let (tk, e, h1) = >>=-eq-done (lookup_or _ (find m id)) _ h in
    let (_, h2) = passed (is_closed tk.status) _ _ h1 in
    let (ids, cut, h3) = >>=-eq-done (delete_at tk.blocked_by (index_of tk.blocked_by b)) _ h2 in
    record {
      ticket = tk;
      write = with_blockers ids;
      found = lookup_or-done _ (find m id) e;
      same_id = λ t. refl;
      fewer = λ y k. contains-delete_at tk.blocked_by (index_of tk.blocked_by b) ids y cut k;
      written = cc h3;
    }

-- Blocking writes the new list to a ticket for which no cycle was found.
pub block-adds :
    (m changed : List Ticket) (id blocker_id : Bytes)
    → block m id blocker_id ≡ done changed
    → (tk : Ticket) × (find m id ≡ some tk)
      × (find_blocker_cycle_path m id blocker_id ≡ done none)
      × (modify m id (with_blockers (tk.blocked_by ++ blocker_id ∷ [])) ≡ changed)
unfolding block
block-adds m changed id b h =
    let (tk, e, h1) = >>=-eq-done (lookup_or _ (find m id)) _ h in
    let (_, h2) = passed (is_closed tk.status) _ _ h1 in
    let (_, h3) = passed (equal b []) _ _ h2 in
    let (_, h4) = passed (not (is_some (find m b))) _ _ h3 in
    let (_, h5) = passed (equal id b) _ _ h4 in
    let (_, h6) = passed (contains tk.blocked_by b) _ _ h5 in
    let (cycle, search, h7) = >>=-eq-done (find_blocker_cycle_path m id b) _ h6 in
    elim (Option-cases cycle) [
      | inl nothing ↦
          (tk, lookup_or-done _ (find m id) e, search ∙ ap done nothing, cc (rw nothing at h7))
      | inr (path, found) ↦ cc (rw found at h7)
    ]
