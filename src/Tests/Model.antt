-- ===== src/Tests/Model.antt =====
-- The reference model after a few commands.
use agent_task.Prelude.{ℕ, ◌≡◌, refl, true, Option, none, some, List, [], ◌∷◌, length, ◌⊎◌, All}
use agent_task.Text.{Bytes, codes, equal, less, contains, trim_space, pos}
use agent_task.Model.{
  done, Ticket, open_status, task, find, modify, is_some, refused, ErrCode, to_status,
}
use agent_task.Model.Graph.{
  first_path, find_path_to, find_blocker_cycle_path, can_start, find_open_blocker,
}
use agent_task.Model.Commands.{
  UserCreateInput, create, create_type, create_priority, check_parent, check_blockers, check_tags,
  block,
}
use agent_task.Model.Chains.{Chain, Leads}
use agent_task.Model.Invariant.{IsConsistent}
use agent_task.Model.Reachable.{
  creation, blocking, run, Reachable, at_start, behind, Reachable-IsConsistent,
}
use agent_task.Model.Histories.{Reachable-IsAcyclic}
use agent_task.Model.Detection.{find_blocker_cycle_path_lem}
use agent_task.Model.Totality.{answers}
use agent_task.Model.Views.{
  ready, startable, paged, sort, insert, UserLsInput, ls, status_filter, priority_filter,
  type_filter, listed, ids,
}
use agent_task.Model.Lists.{IsSorted}
use agent_task.Model.Readiness.{ready_lem}
use agent_task.Model.Completeness.{ready_complete}
use agent_task.Model.Selection.{IsSelected, ls_lem}
use agent_task.Model.Responses.{Reachable-answers}

-- A clock whose texts are as long as they are late.
abbrev clock : Bytes → Option ℕ
clock text = some (length text)

abbrev titled : Bytes → List Bytes → UserCreateInput
titled title blocked_by = record {
  title = title;
  content = codes "what to do";
  ticket_type = [];
  priority = pos 0;
  parent_id = [];
  blocked_by = blocked_by;
  tags = [];
}

abbrev ticket : Bytes → ℕ → Bytes → List Bytes → Ticket
ticket id created_at title blocked_by = record {
  id = id;
  created_at = created_at;
  title = title;
  content = codes "what to do";
  ticket_type = task;
  priority = 2;
  status = open_status;
  parent_id = [];
  blocked_by = blocked_by;
  tags = [];
  claimed_by = [];
  claimed_at = none;
  closed_at = none;
}

abbrev one_ticket : List Ticket
one_ticket = ticket (codes "a") 1 (codes "first") [] ∷ []

abbrev two_tickets : List Bytes → List Ticket
two_tickets ids =
    ticket (codes "a") 1 (codes "first") ids ∷ ticket (codes "b") 2 (codes "second") [] ∷ []

first_created :
    run clock (creation (titled (codes "first") []) (codes "a") (codes "t")) [] ≡ done one_ticket
unfolding create equal find trim_space create_type create_priority check_parent check_blockers
    check_tags
first_created = refl

second_created :
    run clock (creation (titled (codes "second") []) (codes "b") (codes "tt")) one_ticket
    ≡ done (two_tickets [])
unfolding create equal less find trim_space create_type create_priority check_parent check_blockers
    check_tags
second_created = refl

first_blocked :
    run clock (blocking (codes "a") (codes "b")) (two_tickets [])
    ≡ done (two_tickets (codes "b" ∷ []))
unfolding block equal find contains find_blocker_cycle_path find_path_to first_path modify
first_blocked = refl

reached : Reachable clock (two_tickets (codes "b" ∷ []))
reached =
    behind (blocking (codes "a") (codes "b"))
      (behind (creation (titled (codes "second") []) (codes "b") (codes "tt"))
        (behind (creation (titled (codes "first") []) (codes "a") (codes "t")) at_start
          first_created)
        second_created)
      first_blocked

Reachable-IsConsistent_example : IsConsistent (two_tickets (codes "b" ∷ []))
Reachable-IsConsistent_example = Reachable-IsConsistent clock (two_tickets (codes "b" ∷ [])) reached

Reachable-IsAcyclic_example : ¬ Chain (two_tickets (codes "b" ∷ [])) (codes "a") (codes "a")
Reachable-IsAcyclic_example =
    Reachable-IsAcyclic clock (two_tickets (codes "b" ∷ [])) reached (codes "a")

Reachable-answers_example :
    answers (run clock (blocking (codes "b") (codes "a")) (two_tickets (codes "b" ∷ []))) ≡ true
Reachable-answers_example =
    Reachable-answers clock (two_tickets (codes "b" ∷ [])) reached
      (blocking (codes "b") (codes "a")) tt

first_exists : is_some (find (two_tickets (codes "b" ∷ [])) (codes "a")) ≡ true
unfolding find equal
first_exists = refl

find_blocker_cycle_path_lem_example :
    ((find_blocker_cycle_path (two_tickets (codes "b" ∷ [])) (codes "b") (codes "a") ≡ done none)
      × ¬ Leads (two_tickets (codes "b" ∷ [])) (codes "a") (codes "b"))
    ⊎ ((p : List Bytes) × (find_blocker_cycle_path
            (two_tickets (codes "b" ∷ []))
            (codes "b")
            (codes "a")
          ≡ done (some p))
        × Leads (two_tickets (codes "b" ∷ [])) (codes "a") (codes "b"))
find_blocker_cycle_path_lem_example =
    find_blocker_cycle_path_lem clock (two_tickets (codes "b" ∷ [])) (codes "b") (codes "a") reached
      first_exists

-- The blocked ticket is not ready, its blocker is.
ready_blocker :
    ready (two_tickets (codes "b" ∷ [])) (pos 0) (pos 0)
    ≡ done (ticket (codes "b") 2 (codes "second") [] ∷ [])
unfolding ready startable can_start find_open_blocker find equal paged sort insert
ready_blocker = refl

second_found :
    find (two_tickets (codes "b" ∷ [])) (codes "b")
    ≡ some (ticket (codes "b") 2 (codes "second") [])
unfolding find equal
second_found = refl

second_can_start :
    can_start (two_tickets (codes "b" ∷ [])) (ticket (codes "b") 2 (codes "second") []) ≡ done tt
unfolding can_start find_open_blocker equal
second_can_start = refl

ready_lem_example :
    ((out : List Ticket) × (ready (two_tickets (codes "b" ∷ [])) (pos 0) (pos 0) ≡ done out)
      × All (λ t. can_start (two_tickets (codes "b" ∷ [])) t ≡ done tt) out
      × IsSorted out)
    ⊎ ((code : ErrCode) × (ready (two_tickets (codes "b" ∷ [])) (pos 0) (pos 0) ≡ refused code))
ready_lem_example = ready_lem clock (two_tickets (codes "b" ∷ [])) (pos 0) (pos 0) reached

-- The tickets that are open.
abbrev open_only : UserLsInput
open_only = record {
  status = codes "open";
  priority = pos 0;
  ticket_type = [];
  offset = pos 0;
  limit = pos 1;
}

first_listed :
    ls (two_tickets (codes "b" ∷ [])) open_only
    ≡ done (ticket (codes "a") 1 (codes "first") (codes "b" ∷ []) ∷ [])
unfolding ls status_filter priority_filter type_filter to_status equal listed paged
first_listed = refl

ls_lem_example :
    ((out : List Ticket) × (ls (two_tickets (codes "b" ∷ [])) open_only ≡ done out)
      × All (IsSelected (two_tickets (codes "b" ∷ [])) open_only) out)
    ⊎ ((code : ErrCode) × (ls (two_tickets (codes "b" ∷ [])) open_only ≡ refused code))
ls_lem_example = ls_lem clock (two_tickets (codes "b" ∷ [])) open_only reached

ready_complete_example :
    (out : List Ticket) × (ready (two_tickets (codes "b" ∷ [])) (pos 0) (pos 0) ≡ done out)
    × (contains (ids out) (codes "b") ≡ true)
ready_complete_example =
    ready_complete clock (two_tickets (codes "b" ∷ [])) (codes "b")
      (ticket (codes "b") 2 (codes "second") []) reached second_found second_can_start
