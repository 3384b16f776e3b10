-- ===== src/Model/Lookup.antt =====
-- What looking a ticket up finds behind a write and behind a new ticket.
use agent_task.Prelude.{
  ◌≡◌, refl, sym, ap, ◌∙◌, true, false, none, some, List, [], ◌∷◌, ◌++◌, inl, inr, arith,
  if◌then◌else◌, Bool-cases,
}
use agent_task.Text.{Bytes, equal, equal_iff}
use agent_task.Model.{Ticket, is_closed, find, modify}
use agent_task.Model.Graph.{find_open_child}

pub find-id : (m : List Ticket) (x : Bytes) (t : Ticket) → find m x ≡ some t → t.id ≡ x
unfolding find
find-id [] x t h = cc
find-id (u ∷ m) x t h = elim (Bool-cases (equal u.id x)) [
  | inl same ↦
      let here : u ≡ t = cc (rw same at h) in
      ap (λ (v : Ticket). v.id) (sym here) ∙ (equal_iff u.id x).0 same
  | inr other ↦ find-id m x t (rw other at h)
]

module _ (f : Ticket → Ticket) (same_id : (t : Ticket) → (f t).id ≡ t.id) where
  pub find-modify :
      (m : List Ticket) (id : Bytes) (tk : Ticket)
      → find m id ≡ some tk
      → find (modify m id f) id ≡ some (f tk)
  unfolding find modify
  find-modify [] id tk h = cc
  find-modify (u ∷ m) id tk h = elim (Bool-cases (equal u.id id)) [
    | inl same ↦
        let here : u ≡ tk = cc (rw same at h) in
        let id_same : equal (f u).id id ≡ true = ap (λ i. equal i id) (same_id u) ∙ same in
        rw same (rw id_same (ap some (ap f here)))
    | inr other ↦ rw other (rw other (find-modify m id tk (rw other at h)))
  ]

  pub find-modify_other :
      (m : List Ticket) (id x : Bytes) → equal id x ≡ false → find (modify m id f) x ≡ find m x
  unfolding find modify
  find-modify_other [] id x h = refl
  find-modify_other (u ∷ m) id x h = elim (Bool-cases (equal u.id id)) [
    | inl same ↦
        let differs : equal u.id x ≡ false = rw ((equal_iff u.id id).0 same) h in
        let id_differs : equal (f u).id x ≡ false = ap (λ i. equal i x) (same_id u) ∙ differs in
        rw (same, differs) (rw id_differs refl)
    | inr other ↦
        rw other (ap (λ r. if equal u.id x then some u else r) (find-modify_other m id x h))
  ]

pub find-snoc :
    (m : List Ticket) (x : Bytes) (t n : Ticket) → find m x ≡ some t → find (m ++ n ∷ []) x ≡ some t
unfolding find
find-snoc [] x t n h = cc
find-snoc (u ∷ m) x t n h = ground (arith, find-snoc m x t n)

pub find-snoc_new :
    (m : List Ticket) (x : Bytes) (n : Ticket)
    → find m x ≡ none
    → find (m ++ n ∷ []) x ≡ (if equal n.id x then some n else none)
unfolding find
find-snoc_new [] x n h = refl
find-snoc_new (u ∷ m) x n h = ground (arith, find-snoc_new m x n)

-- No open child: every ticket with that parent is closed.
pub find_open_child-none :
    (parent_id : Bytes) (m : List Ticket) (x : Bytes) (t : Ticket)
    → find m [] ≡ none
    → equal (find_open_child parent_id m) [] ≡ true
    → find m x ≡ some t
    → equal t.parent_id parent_id ≡ true
    → is_closed t.status ≡ true
unfolding find find_open_child
find_open_child-none p [] x t e h k same = cc
find_open_child-none p (u ∷ m) x t e h k same = ground (arith, find_open_child-none p m x t)
