-- ===== src/Model/Responses.antt =====
-- Every command of the model answers in every well-formed state, if ids and times are generated in order.
use agent_task.Prelude.{ℕ, ◌≤◌, ◌≡◌, refl, true, not, Option, none, some, List, [], ◌∷◌, arith}
use agent_task.Text.{Bytes, equal, less, contains, trim_space, ℤ, pos, negsuc}
use agent_task.Model.{Outcome, Ticket, find, is_some, is_closed, to_type, to_priority}
use agent_task.Model.Commands.{
  UserCreateInput, create, create_type, create_priority, check_parent, check_blockers, check_tags,
  check_order, last_ticket,
}
use agent_task.Model.Invariant.{IsConsistent}
use agent_task.Model.Reachable.{
  Command, creation, starting, closing, reopening, blocking, unblocking, run, Reachable,
  Reachable-IsConsistent,
}
use agent_task.Model.Totality.{
  answers, Answers, Answers-done, Answers-bind, Answers-guard, Answers-refuse_if, Answers-lookup,
  Answers-time, Answers-if, start-Answers, close-Answers, reopen-Answers, block-Answers,
  unblock-Answers,
}

Answers-refused {ℓ} : {A : Type ℓ} (o : Outcome A) → answers o ≡ true → Answers o
Answers-refused o h = record { holds = h }

to_type-Answers : (t : Bytes) → Answers (to_type t)
unfolding to_type
to_type-Answers t = record { holds = ground arith }

create_type-Answers : (t : Bytes) → Answers (create_type t)
unfolding create_type
create_type-Answers t = Answers-if (equal t []) _ _ (λ _. Answers-done) (λ _. to_type-Answers t)

create_priority-Answers : (p : ℤ) → Answers (create_priority p)
unfolding create_priority to_priority
create_priority-Answers (negsuc n) = record { holds = refl }
create_priority-Answers (pos p) = record { holds = ground arith }

check_parent-Answers : (m : List Ticket) (parent_id : Bytes) → Answers (check_parent m parent_id)
unfolding check_parent
check_parent-Answers m parent_id =
    Answers-if (equal parent_id []) _ _ (λ _. Answers-done)
      (λ _. Answers-lookup _ (find m parent_id) _ (λ p _. Answers-refuse_if (is_closed p.status) _))

check_blockers-Answers :
    (m : List Ticket) (seen ids : List Bytes) → Answers (check_blockers m seen ids)
unfolding check_blockers
check_blockers-Answers m seen [] = Answers-done
check_blockers-Answers m seen (b ∷ ids) = Answers-guard (equal b []) _ _ (λ _.
    Answers-guard (not (is_some (find m b))) _ _
      (λ _. Answers-guard (contains seen b) _ _ (λ _. check_blockers-Answers m (b ∷ seen) ids)))

check_tags-Answers : (seen tags : List Bytes) → Answers (check_tags seen tags)
unfolding check_tags
check_tags-Answers seen [] = Answers-done
check_tags-Answers seen (tag ∷ tags) =
    Answers-guard (equal tag []) _ _
      (λ _. Answers-guard (contains seen tag) _ _ (λ _. check_tags-Answers (tag ∷ seen) tags))

-- A new ticket has an id behind the one created last, and is not created before it.
abbrev pub IsInOrder : (Bytes → Option ℕ) → List Ticket → Command → Type 0
IsInOrder parse_time m (creation user id text) =
    (last : Ticket)
    → last_ticket m ≡ some last
    → (less last.id id ≡ true) × ((at : ℕ) → parse_time text ≡ some at → last.created_at ≤ at)
IsInOrder parse_time m (starting id claimed_by text) = Unit
IsInOrder parse_time m (closing id text) = Unit
IsInOrder parse_time m (reopening id) = Unit
IsInOrder parse_time m (blocking id blocker_id) = Unit
IsInOrder parse_time m (unblocking id blocker_id) = Unit

check_order-Answers :
    (o : Option Ticket) (id : Bytes) (at : ℕ)
    → ((last : Ticket) → o ≡ some last → (less last.id id ≡ true) × (last.created_at ≤ at))
    → Answers (check_order o id at)
check_order-Answers none id at h = Answers-done
check_order-Answers (some last) id at h =
    let (behind, later) = h last refl in record { holds = ground arith }

module _ (parse_time : Bytes → Option ℕ) (m : List Ticket) where
  create-Answers :
      (user : UserCreateInput) (id text : Bytes)
      → IsInOrder parse_time m (creation user id text)
      → Answers (create parse_time m user id text)
  unfolding create
  create-Answers user id text h = Answers-guard (equal id []) _ _ (λ _.
      Answers-time (parse_time text) _ (λ at e. Answers-guard (is_some (find m id)) _ _ (λ _.
        Answers-guard (equal (trim_space user.title) []) _ _ (λ _.
          Answers-guard (equal (trim_space user.content) []) _ _ (λ _.
            Answers-bind (create_type user.ticket_type) _ (create_type-Answers user.ticket_type)
              (λ kind _.
                Answers-bind (create_priority user.priority) _
                  (create_priority-Answers user.priority)
                  (λ priority _.
                    Answers-bind (check_parent m user.parent_id) _
                      (check_parent-Answers m user.parent_id)
                      (λ _ _.
                        Answers-bind (check_blockers m [] user.blocked_by) _
                          (check_blockers-Answers m [] user.blocked_by)
                          (λ _ _.
                            Answers-bind (check_tags [] user.tags) _
                              (check_tags-Answers [] user.tags)
                              (λ _ _.
                                Answers-bind (check_order (last_ticket m) id at) _
                                  (check_order-Answers (last_ticket m) id at
                                    (λ last l. ((h last l).0, (h last l).1 at e)))
                                  (λ _ _. Answers-done)))))))))))

  run-Answers :
      IsConsistent m → (c : Command) → IsInOrder parse_time m c → Answers (run parse_time c m)
  run-Answers k (creation user id text) h = create-Answers user id text h
  run-Answers k (starting id claimed_by text) h = start-Answers m k parse_time id claimed_by text
  run-Answers k (closing id text) h = close-Answers m k parse_time id text
  run-Answers k (reopening id) h = reopen-Answers m k id
  run-Answers k (blocking id b) h = block-Answers m k id b
  run-Answers k (unblocking id b) h = unblock-Answers m k id b

  -- In a state that commands lead to, a command returns or returns an error: it does not panic, and its
  -- searches end within their fuel. A new ticket's id and time must be generated in order.
  pub Reachable-answers :
      Reachable parse_time m
      → (c : Command) → IsInOrder parse_time m c
      → answers (run parse_time c m) ≡ true
  Reachable-answers r c h = (run-Answers (Reachable-IsConsistent parse_time m r) c h).holds
