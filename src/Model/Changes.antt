-- ===== src/Model/Changes.antt =====
-- What keeps a state well-formed: the conditions on a write to one ticket, and on a new ticket.
use agent_task.Prelude.{
  ◌≡◌, ◌⊎◌, sym, ap, ◌∙◌, true, false, some, List, [], ◌∷◌, inl, inr, Bool-cases, All, subst,
}
use agent_task.Text.{Bytes, equal, equal_iff, equal_refl}
use agent_task.Model.{Ticket, is_closed, find, is_some, modify}
use agent_task.Model.Invariant.{IsDated, IsLinked, IsConsistent}
use agent_task.Model.Lookup.{find-modify, find-modify_other}

pub All-map :
    {P Q : Bytes → Type 0} (ids : List Bytes) → ((b : Bytes) → P b → Q b) → All P ids → All Q ids
All-map [] f h = tt
All-map (b ∷ ids) f (h, hs) = (f b h, All-map ids f hs)

-- A write that may be made: it keeps the id, the parent and the creation, leaves the ticket dated and
-- with blockers that exist, and does not leave an open ticket below a closed one.
pub record IsAllowed (m : List Ticket) (id : Bytes) (tk : Ticket) (f : Ticket → Ticket)
    : Type 0 where
  pub same_id : (t : Ticket) → (f t).id ≡ t.id
  pub same_parent : (f tk).parent_id ≡ tk.parent_id
  pub dated : IsDated (f tk)
  pub blockers : All (λ b. is_some (find m b) ≡ true) (f tk).blocked_by
  pub upward :
      (p : Ticket)
      → find m tk.parent_id ≡ some p
      → is_closed p.status ≡ true
      → is_closed (f tk).status ≡ true
  pub downward :
      is_closed (f tk).status ≡ true
      → (x : Bytes) (t : Ticket) → find m x ≡ some t
      → equal t.parent_id id ≡ true
      → is_closed t.status ≡ true

module _ (m : List Ticket) (id : Bytes) (tk : Ticket) (f : Ticket → Ticket)
    (found : find m id ≡ some tk) (c : IsConsistent m) (a : IsAllowed m id tk f) where
  changed : List Ticket
  changed = modify m id f

  at_id : find changed id ≡ some (f tk)
  unfolding changed
  at_id = find-modify f a.same_id m id tk found

  elsewhere : (x : Bytes) → equal id x ≡ false → find changed x ≡ find m x
  unfolding changed
  elsewhere x h = find-modify_other f a.same_id m id x h

  -- What is found at an id behind the write.
  found_cases :
      (x : Bytes) (t : Ticket)
      → find changed x ≡ some t
      → ((equal id x ≡ true) × (t ≡ f tk)) ⊎ ((equal id x ≡ false) × (find m x ≡ some t))
  found_cases x t h = elim (Bool-cases (equal id x)) [
    | inl same ↦
        let e : find changed x ≡ some (f tk) =
          ap (find changed) (sym ((equal_iff id x).0 same)) ∙ at_id in
        inl (same, cc (e, h))
    | inr other ↦ inr (other, sym (elsewhere x other) ∙ h)
  ]

  still_there : (b : Bytes) → is_some (find m b) ≡ true → is_some (find changed b) ≡ true
  still_there b h = elim (Bool-cases (equal id b)) [
    | inl same ↦ ap is_some (ap (find changed) (sym ((equal_iff id b).0 same)) ∙ at_id)
    | inr other ↦ ap is_some (elsewhere b other) ∙ h
  ]

  IsLinked-written : IsLinked changed (f tk)
  IsLinked-written = record {
    blockers = All-map (f tk).blocked_by still_there a.blockers;
    parent = λ h. still_there (f tk).parent_id (
        ap (λ p. is_some (find m p)) a.same_parent
        ∙ (c.linked id tk found).parent (ap (λ p. equal p []) (sym a.same_parent) ∙ h));
    below_closed = λ p h k. elim (found_cases (f tk).parent_id p h) [
      | inl (_, same) ↦ ap (λ (t : Ticket). is_closed t.status) (sym same) ∙ k
      | inr (_, e) ↦ a.upward p (ap (find m) (sym a.same_parent) ∙ e) k
    ];
  }

  IsLinked-kept : (x : Bytes) (t : Ticket) → find m x ≡ some t → IsLinked changed t
  IsLinked-kept x t e =
      let old = c.linked x t e in
      record {
        blockers = All-map t.blocked_by still_there old.blockers;
        parent = λ h. still_there t.parent_id (old.parent h);
        below_closed = λ p h k. elim (found_cases t.parent_id p h) [
          | inl (same, here) ↦
              a.downward (ap (λ (t : Ticket). is_closed t.status) (sym here) ∙ k) x t e (
                ap (λ i. equal t.parent_id i) ((equal_iff id t.parent_id).0 same)
                ∙ equal_refl t.parent_id)
          | inr (_, e') ↦ old.below_closed p e' k
        ];
      }

  -- A write that may be made keeps the state well-formed.
  pub modify-IsConsistent : IsConsistent (modify m id f)
  unfolding changed
  modify-IsConsistent = record {
    no_empty = elim (Bool-cases (equal id [])) [
      | inl same ↦ cc (ap (find m) ((equal_iff id []).0 same), c.no_empty, found)
      | inr other ↦ elsewhere [] other ∙ c.no_empty
    ];
    dated = λ x t h. elim (found_cases x t h) [
      | inl (_, same) ↦ subst IsDated (sym same) a.dated
      | inr (_, e) ↦ c.dated x t e
    ];
    linked = λ x t h. elim (found_cases x t h) [
      | inl (_, same) ↦ subst (IsLinked changed) (sym same) IsLinked-written
      | inr (_, e) ↦ IsLinked-kept x t e
    ];
  }
