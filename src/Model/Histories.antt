-- ===== src/Model/Histories.antt =====
-- No sequence of commands leads to a state with a cycle of blockers.
use agent_task.Prelude.{
  ℕ, ◌≡◌, sym, ap, ◌∙◌, true, false, Option, some, List, [], ◌∷◌, ◌++◌, inl, inr, Bool-cases,
  Option-cases, All, subst,
}
use agent_task.Text.{Bytes, equal, equal_iff, contains}
use agent_task.Model.{done, Ticket, find, is_some}
use agent_task.Model.Commands.{UserCreateInput, create, block}
use agent_task.Model.Invariant.{IsConsistent}
use agent_task.Model.Lookup.{find-snoc, find-snoc_new}
use agent_task.Model.Creation.{create-IsFresh}
use agent_task.Model.Writes.{
  block-adds, Writes-IsAcyclic, start-Writes, close-Writes, reopen-Writes, unblock-Writes,
}
use agent_task.Model.Chains.{IsBlocked, Chain, one, more, IsAcyclic}
use agent_task.Model.Acyclic.{block-IsAcyclic}
use agent_task.Model.Reachable.{
  Command, creation, starting, closing, reopening, blocking, unblocking, run, Reachable, at_start,
  behind, Reachable-IsConsistent,
}

All-contains :
    (m : List Ticket) (ids : List Bytes) (y : Bytes)
    → All (λ b. is_some (find m b) ≡ true) ids
    → contains ids y ≡ true
    → is_some (find m y) ≡ true
unfolding contains
All-contains m [] y a h = cc h
All-contains m (b ∷ ids) y (s, a) h = elim (Bool-cases (equal b y)) [
  | inl same ↦ ap (λ i. is_some (find m i)) (sym ((equal_iff b y).0 same)) ∙ s
  | inr other ↦ All-contains m ids y a (rw other at h)
]

-- A new ticket blocks nothing yet.
module _ (m : List Ticket) (n : Ticket) (c : IsConsistent m)
    (unused : is_some (find m n.id) ≡ false)
    (blockers : All (λ b. is_some (find m b) ≡ true) n.blocked_by) where
  added : List Ticket
  added = m ++ n ∷ []

  blocker_exists : (x y : Bytes) → IsBlocked added x y → is_some (find m y) ≡ true
  unfolding added
  blocker_exists x y e = elim (Option-cases (find m x)) [
    | inl missing ↦
        let at = sym (find-snoc_new m x n missing) ∙ e.found in
        elim (Bool-cases (equal n.id x)) [
          | inl same ↦
              let here : some n ≡ some e.ticket = rw same at at in
              let is_it : n ≡ e.ticket = cc here in
              All-contains m n.blocked_by y blockers
                (ap (λ (t : Ticket). contains t.blocked_by y) is_it ∙ e.listed)
          | inr other ↦ cc (rw other at at)
        ]
    | inr (t, f) ↦
        let is_it : t ≡ e.ticket = cc (find-snoc m x t n f, e.found) in
        All-contains m t.blocked_by y (c.linked x t f).blockers
          (ap (λ (t : Ticket). contains t.blocked_by y) is_it ∙ e.listed)
  ]

  IsBlocked-old : (x y : Bytes) → is_some (find m x) ≡ true → IsBlocked added x y → IsBlocked m x y
  unfolding added
  IsBlocked-old x y h e = elim (Option-cases (find m x)) [
    | inl missing ↦ cc (ap is_some missing, h)
    | inr (t, f) ↦
        let is_it : t ≡ e.ticket = cc (find-snoc m x t n f, e.found) in
        record { ticket = e.ticket; found = f ∙ ap some is_it; listed = e.listed }
  ]

  end_exists : {x y : Bytes} → Chain added x y → is_some (find m y) ≡ true
  end_exists (one {x} {y} e) = blocker_exists x y e
  end_exists (more e d) = end_exists d

  Chain-old : {x y : Bytes} → is_some (find m x) ≡ true → Chain added x y → Chain m x y
  Chain-old h (one {x} {y} e) = one (IsBlocked-old x y h e)
  Chain-old h (more {x} {y} e d) = more (IsBlocked-old x y h e) (Chain-old (blocker_exists x y e) d)

  snoc-IsAcyclic : IsAcyclic m → IsAcyclic (m ++ n ∷ [])
  unfolding added
  snoc-IsAcyclic a x d = a x (Chain-old (end_exists d) d)

module _ (parse_time : Bytes → Option ℕ) where
  create-IsAcyclic :
      (m changed : List Ticket) (user : UserCreateInput) (id text : Bytes)
      → IsConsistent m
      → create parse_time m user id text ≡ done changed
      → IsAcyclic m
      → IsAcyclic changed
  create-IsAcyclic m changed user id text c h a =
      let (n, fresh, written) = create-IsFresh m c parse_time user id text changed h in
      subst IsAcyclic written (snoc-IsAcyclic m n c (ap is_some fresh.unused) fresh.blockers a)

  blocked-IsAcyclic :
      (m changed : List Ticket) (id blocker_id : Bytes)
      → block m id blocker_id ≡ done changed
      → IsAcyclic m
      → IsAcyclic changed
  blocked-IsAcyclic m changed id b h a =
      let (tk, found, no_cycle, written) = block-adds m changed id b h in
      subst IsAcyclic written (block-IsAcyclic m id b tk found no_cycle a)

  run-IsAcyclic :
      (c : Command) (m changed : List Ticket)
      → IsConsistent m
      → run parse_time c m ≡ done changed
      → IsAcyclic m
      → IsAcyclic changed
  run-IsAcyclic (creation user id text) m changed k h a =
      create-IsAcyclic m changed user id text k h a
  run-IsAcyclic (starting id by text) m changed k h a =
      Writes-IsAcyclic m changed id (start-Writes parse_time m changed id by text h) a
  run-IsAcyclic (closing id text) m changed k h a =
      Writes-IsAcyclic m changed id (close-Writes parse_time m changed id text h) a
  run-IsAcyclic (reopening id) m changed k h a =
      Writes-IsAcyclic m changed id (reopen-Writes m changed id h) a
  run-IsAcyclic (blocking id b) m changed k h a = blocked-IsAcyclic m changed id b h a
  run-IsAcyclic (unblocking id b) m changed k h a =
      Writes-IsAcyclic m changed id (unblock-Writes m changed id b h) a

  empty-IsAcyclic : IsAcyclic []
  unfolding find
  empty-IsAcyclic x (one e) = cc e.found
  empty-IsAcyclic x (more e d) = cc e.found

  -- Whatever commands are run, no ticket waits for itself through a chain of blockers.
  pub Reachable-IsAcyclic : (m : List Ticket) → Reachable parse_time m → IsAcyclic m
  Reachable-IsAcyclic _ at_start = empty-IsAcyclic
  Reachable-IsAcyclic _ (behind {m} {changed} c r e) =
      run-IsAcyclic c m changed (Reachable-IsConsistent parse_time m r) e (Reachable-IsAcyclic m r)
