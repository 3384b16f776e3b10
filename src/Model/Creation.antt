-- ===== src/Model/Creation.antt =====
-- Creating a ticket keeps a state of the model well-formed.
use agent_task.Prelude.{
  ℕ, ◌≡◌, refl, sym, ap, ◌∙◌, true, false, not, Option, none, some, List, [], ◌∷◌, ◌++◌, inl, inr,
  arith, Bool-cases, All, subst,
}
use agent_task.Text.{Bytes, equal, equal_iff, contains, trim_space}
use agent_task.Model.{done, Ticket, is_closed, find, is_some, to_time, lookup_or}
use agent_task.Model.Commands.{
  UserCreateInput, create, create_type, create_priority, check_parent, check_blockers, check_tags,
  check_order, last_ticket, new_ticket,
}
use agent_task.Model.Invariant.{IsConsistent}
use agent_task.Model.Inversion.{>>=-eq-done, passed, lookup_or-done, refuse_if-done}
use agent_task.Model.Dates.{new_ticket-IsDated}
use agent_task.Model.Adding.{IsFresh, snoc-IsConsistent}

pub check_blockers-done :
    (m : List Ticket) (seen blockers : List Bytes) (u : Unit {0})
    → check_blockers m seen blockers ≡ done u
    → All (λ b. is_some (find m b) ≡ true) blockers
unfolding check_blockers
check_blockers-done m seen [] u h = tt
check_blockers-done m seen (b ∷ blockers) u h =
    let (_, h1) = passed (equal b []) _ _ h in
    let (known, h2) = passed (not (is_some (find m b))) _ _ h1 in
    let (_, h3) = passed (contains seen b) _ _ h2 in
    let exists : is_some (find m b) ≡ true = ground arith in
    (exists, check_blockers-done m (b ∷ seen) blockers u h3)

-- The parent that a new ticket may have.
check_parent-done :
    (m : List Ticket) (parent_id : Bytes) (u : Unit {0})
    → find m [] ≡ none
    → check_parent m parent_id ≡ done u
    → (equal parent_id [] ≡ false → is_some (find m parent_id) ≡ true)
      × ((p : Ticket) → find m parent_id ≡ some p → is_closed p.status ≡ false)
unfolding check_parent
check_parent-done m parent_id u e h = elim (Bool-cases (equal parent_id [])) [
  | inl empty ↦ (
    (λ given. cc (empty, given)),
    (λ p f. cc (ap (find m) ((equal_iff parent_id []).0 empty), e, f)),
  )
  | inr given ↦
      let (q, e1, h1) = >>=-eq-done (lookup_or _ (find m parent_id)) _ (rw given at h) in
      let found = lookup_or-done _ (find m parent_id) e1 in
      (
        (λ _. ap is_some found),
        (λ p f.
            let same : q ≡ p = cc (found, f) in
            ap (λ (t : Ticket). is_closed t.status) (sym same) ∙ refuse_if-done _ _ h1),
      )
]

missing : (o : Option Ticket) → is_some o ≡ false → o ≡ none
missing none h = refl
missing (some t) h = cc h

-- A ticket that is created is fresh.
pub create-IsFresh :
    (m : List Ticket)
    → IsConsistent m
    → (parse_time : Bytes → Option ℕ) (user : UserCreateInput) (id text : Bytes)
    → (changed : List Ticket) → create parse_time m user id text ≡ done changed
    → (n : Ticket) × IsFresh m n × (m ++ n ∷ [] ≡ changed)
unfolding create
create-IsFresh m c parse_time user id text changed h =
    let (named, h1) = passed (equal id []) _ _ h in
    let (at, _, h2) = >>=-eq-done (to_time (parse_time text)) _ h1 in
    let (unused, h3) = passed (is_some (find m id)) _ _ h2 in
    let (_, h4) = passed (equal (trim_space user.title) []) _ _ h3 in
    let (_, h5) = passed (equal (trim_space user.content) []) _ _ h4 in
    let (kind, _, h6) = >>=-eq-done (create_type user.ticket_type) _ h5 in
    let (priority, _, h7) = >>=-eq-done (create_priority user.priority) _ h6 in
    let (u, parent, h8) = >>=-eq-done (check_parent m user.parent_id) _ h7 in
    let (v, blockers, h9) = >>=-eq-done (check_blockers m [] user.blocked_by) _ h8 in
    let (_, _, h10) = >>=-eq-done (check_tags [] user.tags) _ h9 in
    let (_, _, h11) = >>=-eq-done (check_order (last_ticket m) id at) _ h10 in
    let n = new_ticket user id at kind priority in
    let written : m ++ n ∷ [] ≡ changed = cc h11 in
    let (exists, not_closed) = check_parent-done m user.parent_id u c.no_empty parent in
    (
      n,
      record {
        named = named;
        unused = missing (find m id) unused;
        dated = new_ticket-IsDated user id at kind priority;
        blockers = check_blockers-done m [] user.blocked_by v blockers;
        parent = exists;
        parent_open = not_closed;
      },
      written,
    )

pub create-IsConsistent :
    (m : List Ticket)
    → IsConsistent m
    → (parse_time : Bytes → Option ℕ) (user : UserCreateInput) (id text : Bytes)
    → (changed : List Ticket) → create parse_time m user id text ≡ done changed
    → IsConsistent changed
create-IsConsistent m c parse_time user id text changed h =
    let (n, fresh, written) = create-IsFresh m c parse_time user id text changed h in
    subst IsConsistent written (snoc-IsConsistent m n c fresh)
