-- ===== src/Model/Adding.antt =====
-- A new ticket keeps a state well-formed.
use agent_task.Prelude.{
  ◌≡◌, ◌⊎◌, sym, ap, ◌∙◌, true, false, none, some, List, [], ◌∷◌, ◌++◌, inl, inr, if◌then◌else◌,
  Bool-cases, Option-cases, All, subst,
}
use agent_task.Text.{Bytes, equal, equal_iff}
use agent_task.Model.{Ticket, is_closed, find, is_some}
use agent_task.Model.Invariant.{IsDated, IsLinked, IsConsistent}
use agent_task.Model.Lookup.{find-snoc, find-snoc_new}
use agent_task.Model.Changes.{All-map}

-- What the new ticket needs: a fresh id that is not empty, and blockers and a parent that exist, the
-- parent not closed.
pub record IsFresh (m : List Ticket) (n : Ticket) : Type 0 where
  pub named : equal n.id [] ≡ false
  pub unused : find m n.id ≡ none
  pub dated : IsDated n
  pub blockers : All (λ b. is_some (find m b) ≡ true) n.blocked_by
  pub parent : equal n.parent_id [] ≡ false → is_some (find m n.parent_id) ≡ true
  pub parent_open : (p : Ticket) → find m n.parent_id ≡ some p → is_closed p.status ≡ false

module _ (m : List Ticket) (n : Ticket) (c : IsConsistent m) (a : IsFresh m n) where
  added : List Ticket
  added = m ++ n ∷ []

  added_cases :
      (x : Bytes) (t : Ticket)
      → find added x ≡ some t
      → ((equal n.id x ≡ true) × (find m x ≡ none) × (t ≡ n)) ⊎ (find m x ≡ some t)
  unfolding added
  added_cases x t h = elim (Option-cases (find m x)) [
    | inl missing ↦
        let e = sym (find-snoc_new m x n missing) ∙ h in
        elim (Bool-cases (equal n.id x)) [
          | inl same ↦ let here : some n ≡ some t = rw same at e in inl (same, missing, cc here)
          | inr other ↦ cc (rw other at e)
        ]
    | inr (u, e) ↦ inr (cc (find-snoc m x u n e, h, e))
  ]

  still_there : (b : Bytes) → is_some (find m b) ≡ true → is_some (find added b) ≡ true
  unfolding added
  still_there b h = elim (Option-cases (find m b)) [
    | inl missing ↦ cc (ap is_some missing, h)
    | inr (u, e) ↦ ap is_some (find-snoc m b u n e)
  ]

  -- The parent of a ticket with existing parent is the one of before.
  IsLinked-added :
      (t : Ticket)
      → All (λ b. is_some (find m b) ≡ true) t.blocked_by
      → (equal t.parent_id [] ≡ false → is_some (find m t.parent_id) ≡ true)
      → ((p : Ticket)
          → find m t.parent_id ≡ some p
          → is_closed p.status ≡ true
          → is_closed t.status ≡ true)
      → IsLinked added t
  IsLinked-added t blockers parent below = record {
    blockers = All-map t.blocked_by still_there blockers;
    parent = λ h. still_there t.parent_id (parent h);
    below_closed = λ p h k. elim (added_cases t.parent_id p h) [
      | inl (same, missing, _) ↦ elim (Bool-cases (equal t.parent_id [])) [
        | inl empty ↦ cc (same, ap (equal n.id) ((equal_iff t.parent_id []).0 empty), a.named)
        | inr given ↦ cc (parent given, ap is_some missing)
      ]
      | inr e ↦ below p e k
    ];
  }

  pub snoc-IsConsistent : IsConsistent (m ++ n ∷ [])
  unfolding added
  snoc-IsConsistent = record {
    no_empty = find-snoc_new m [] n c.no_empty ∙ ap (λ b. if b then some n else none) a.named;
    dated = λ x t h. elim (added_cases x t h) [
      | inl (_, _, e) ↦ subst IsDated (sym e) a.dated
      | inr e ↦ c.dated x t e
    ];
    linked = λ x t h. elim (added_cases x t h) [
      | inl (_, _, e) ↦
          subst (IsLinked added) (sym e)
            (IsLinked-added n a.blockers a.parent (λ p f k. cc (a.parent_open p f, k)))
      | inr e ↦
          let old = c.linked x t e in IsLinked-added t old.blockers old.parent old.below_closed
    ];
  }
