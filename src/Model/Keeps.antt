-- ===== src/Model/Keeps.antt =====
-- The commands of the model keep its states well-formed.
use agent_task.Prelude.{
  ℕ, suc, take, drop, ◌≡◌, refl, sym, ap, ◌∙◌, true, false, not, Option, none, some, List, [], ◌∷◌,
  ◌++◌, inl, inr, arith, Bool-cases, All, subst, ltb, All-append, All-take, All-drop,
}
use agent_task.Text.{Bytes, contains, equal, equal_iff}
use agent_task.Model.{
  done, refused, blocker_cycle, deref, Ticket, is_open, is_closed, is_in_progress, find, is_some,
  modify, to_time, lookup_or,
}
use agent_task.Model.Graph.{find_blocker_cycle_path, can_start, find_open_child}
use agent_task.Model.Commands.{
  delete_at, open_parent, start, close, reopen, block, unblock, claimed, finished, reopened,
  with_blockers,
}
use agent_task.Model.Invariant.{IsConsistent}
use agent_task.Model.Lookup.{find_open_child-none}
use agent_task.Model.Inversion.{>>=-eq-done, passed, lookup_or-done, deref-done, refuse_if-done}
use agent_task.Lifecycle.{index_of}
use agent_task.Model.Dates.{
  open-not_closed, claimed-IsDated, finished-IsDated, reopened-IsDated, with_blockers-IsDated,
}
use agent_task.Model.Changes.{modify-IsConsistent}

can_start-open :
    (m : List Ticket) (tk : Ticket) (u : Unit {0})
    → can_start m tk ≡ done u
    → is_closed tk.status ≡ false
unfolding can_start
can_start-open m tk u h =
    let (still_open, rest) = passed (not (is_open tk.status)) _ _ h in
    open-not_closed tk.status (ground arith)

All-delete_at :
    (P : Bytes → Type 0) (ids : List Bytes) (o : Option ℕ) (rest : List Bytes)
    → delete_at ids o ≡ done rest
    → All P ids
    → All P rest
All-delete_at P ids none rest h a = cc h
All-delete_at P ids (some i) rest h a =
    subst (All P) (cc h)
      (All-append P (take i ids) (drop (suc i) ids) (All-take P i ids a) (All-drop P (suc i) ids a))

-- A write that leaves the status and the parent.
rewired :
    (m : List Ticket) (id : Bytes) (tk : Ticket) (ids : List Bytes)
    → IsConsistent m
    → find m id ≡ some tk
    → is_closed tk.status ≡ false
    → All (λ b. is_some (find m b) ≡ true) ids
    → IsConsistent (modify m id (with_blockers ids))
rewired m id tk ids c found live known =
    modify-IsConsistent m id tk (with_blockers ids) found c (record {
      same_id = λ t. refl;
      same_parent = refl;
      dated = with_blockers-IsDated ids tk (c.dated id tk found);
      blockers = known;
      upward = λ p k l. (c.linked id tk found).below_closed p k l;
      downward = λ k. cc (k, live);
    })

-- The parent of a ticket that may be reopened is not closed.
open_parent-done :
    (m : List Ticket) (parent_id : Bytes) (u : Unit {0}) (p : Ticket)
    → find m [] ≡ none
    → open_parent m parent_id ≡ done u
    → find m parent_id ≡ some p
    → is_closed p.status ≡ false
open_parent-done m parent_id u p e h f = elim (Bool-cases (equal parent_id [])) [
  | inl empty ↦ cc (ap (find m) ((equal_iff parent_id []).0 empty), e, f)
  | inr given ↦
      let (q, e1, h1) = >>=-eq-done (deref (find m parent_id)) _ (rw given at h) in
      let same : q ≡ p = cc (deref-done (find m parent_id) e1, f) in
      ap (λ (t : Ticket). is_closed t.status) (sym same) ∙ refuse_if-done _ _ h1
]

pub no_cycle-done :
    (cycle : Option (List Bytes)) (m : List Ticket) {changed : List Ticket}
    → elim cycle [ none ↦ done m | some path ↦ refused blocker_cycle ] ≡ done changed
    → m ≡ changed
no_cycle-done none m h = cc h
no_cycle-done (some path) m h = cc h

module _ (m : List Ticket) (c : IsConsistent m) where
  module _ (parse_time : Bytes → Option ℕ) where
    pub start-IsConsistent :
        (id claimed_by text : Bytes) (changed : List Ticket)
        → start parse_time m id claimed_by text ≡ done changed
        → IsConsistent changed
    unfolding start
    start-IsConsistent id claimed_by text changed h =
        let (named, h1) = passed (equal claimed_by []) _ _ h in
        let (at, _, h2) = >>=-eq-done (to_time (parse_time text)) _ h1 in
        let (tk, e, h3) = >>=-eq-done (lookup_or _ (find m id)) _ h2 in
        let found = lookup_or-done _ (find m id) e in
        let (late, h4) = passed (ltb at tk.created_at) _ _ h3 in
        let (u, starts, h5) = >>=-eq-done (can_start m tk) _ h4 in
        let live = can_start-open m tk u starts in
        let written : modify m id (claimed claimed_by at) ≡ changed = cc h5 in
        subst IsConsistent written (
          modify-IsConsistent m id tk (claimed claimed_by at) found c (record {
            same_id = λ t. refl;
            same_parent = refl;
            dated = claimed-IsDated claimed_by at tk (c.dated id tk found) named live late;
            blockers = (c.linked id tk found).blockers;
            upward = λ p k l. cc ((c.linked id tk found).below_closed p k l, live);
            downward = λ k. cc k;
          }))

    pub close-IsConsistent :
        (id text : Bytes) (changed : List Ticket)
        → close parse_time m id text ≡ done changed
        → IsConsistent changed
    unfolding close
    close-IsConsistent id text changed h =
        let (tk, e, h1) = >>=-eq-done (lookup_or _ (find m id)) _ h in
        let found = lookup_or-done _ (find m id) e in
        let (_, h2) = passed (is_open tk.status) _ _ h1 in
        let (_, h3) = passed (is_closed tk.status) _ _ h2 in
        let (no_child, h4) = passed (not (equal (find_open_child id m) [])) _ _ h3 in
        let (at, _, h5) = >>=-eq-done (to_time (parse_time text)) _ h4 in
        let (late, h6) = passed (ltb at tk.created_at) _ _ h5 in
        let written : modify m id (finished at) ≡ changed = cc h6 in
        subst IsConsistent written (
          modify-IsConsistent m id tk (finished at) found c (record {
            same_id = λ t. refl;
            same_parent = refl;
            dated = finished-IsDated at tk late;
            blockers = (c.linked id tk found).blockers;
            upward = λ p k l. refl;
            downward =
                λ k x t f same. find_open_child-none id m x t c.no_empty (ground arith) f same;
          }))

  pub reopen-IsConsistent :
      (id : Bytes) (changed : List Ticket) → reopen m id ≡ done changed → IsConsistent changed
  unfolding reopen
  reopen-IsConsistent id changed h =
      let (tk, e, h1) = >>=-eq-done (lookup_or _ (find m id)) _ h in
      let found = lookup_or-done _ (find m id) e in
      let (_, h2) = passed (is_open tk.status) _ _ h1 in
      let (idle, h3) = passed (is_in_progress tk.status) _ _ h2 in
      let (u, parent, h4) = >>=-eq-done (open_parent m tk.parent_id) _ h3 in
      let written : modify m id reopened ≡ changed = cc h4 in
      subst IsConsistent written (
        modify-IsConsistent m id tk reopened found c (record {
          same_id = λ t. refl;
          same_parent = refl;
          dated = reopened-IsDated tk (c.dated id tk found) idle;
          blockers = (c.linked id tk found).blockers;
          upward = λ p k l. cc (open_parent-done m tk.parent_id u p c.no_empty parent k, l);
          downward = λ k. cc k;
        }))

  pub block-IsConsistent :
      (id blocker_id : Bytes) (changed : List Ticket)
      → block m id blocker_id ≡ done changed
      → IsConsistent changed
  unfolding block
  block-IsConsistent id b changed h =
      let (tk, e, h1) = >>=-eq-done (lookup_or _ (find m id)) _ h in
      let (live, h2) = passed (is_closed tk.status) _ _ h1 in
      let (_, h3) = passed (equal b []) _ _ h2 in
      let (known, h4) = passed (not (is_some (find m b))) _ _ h3 in
      let (_, h5) = passed (equal id b) _ _ h4 in
      let (_, h6) = passed (contains tk.blocked_by b) _ _ h5 in
      let (cycle, _, h7) = >>=-eq-done (find_blocker_cycle_path m id b) _ h6 in
      let found = lookup_or-done _ (find m id) e in
      let exists : is_some (find m b) ≡ true = ground arith in
      subst IsConsistent (no_cycle-done cycle _ h7) (
        rewired m id tk (tk.blocked_by ++ b ∷ []) c found live
          (All-append _ tk.blocked_by (b ∷ []) (c.linked id tk found).blockers (exists, tt)))

  pub unblock-IsConsistent :
      (id blocker_id : Bytes) (changed : List Ticket)
      → unblock m id blocker_id ≡ done changed
      → IsConsistent changed
  unfolding unblock
  unblock-IsConsistent id b changed h =
      let (tk, e, h1) = >>=-eq-done (lookup_or _ (find m id)) _ h in
      let (live, h2) = passed (is_closed tk.status) _ _ h1 in
      let (ids, cut, h3) = >>=-eq-done (delete_at tk.blocked_by (index_of tk.blocked_by b)) _ h2 in
      let found = lookup_or-done _ (find m id) e in
      let written : modify m id (with_blockers ids) ≡ changed = cc h3 in
      subst IsConsistent written (
        rewired m id tk ids c found live (
          All-delete_at _ tk.blocked_by (index_of tk.blocked_by b) ids cut
            (c.linked id tk found).blockers))
