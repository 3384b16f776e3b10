-- ===== src/Model/Acyclic.antt =====
-- The commands of the model keep it free of blocker cycles.
use agent_task.Prelude.{
  ℕ, zero, suc, ◌≡◌, ◌⊎◌, refl, sym, ap, ◌∙◌, true, Option, none, some, List, [], ◌∷◌, ◌++◌, inl,
  inr, arith, Bool-cases, Option-cases, take, drop,
}
use agent_task.Text.{Bytes, equal, equal_iff, contains}
use agent_task.Model.{done, Ticket, find, modify}
use agent_task.Model.Graph.{find_path_to, search_fuel, find_blocker_cycle_path}
use agent_task.Model.Commands.{with_blockers, delete_at}
use agent_task.Model.Inversion.{>>=-eq-done}
use agent_task.Model.Lookup.{find-modify, find-modify_other}
use agent_task.Model.Chains.{IsBlocked, Leads, IsAcyclic, fewer-IsAcyclic, one_more-IsAcyclic}
use agent_task.Model.Search.{find_path_to_complete}

-- No cycle is found only if no chain leads from the blocker to the ticket.
pub find_blocker_cycle_path-none :
    (m : List Ticket) (id blocker : Bytes)
    → find_blocker_cycle_path m id blocker ≡ done none
    → ¬ Leads m blocker id
unfolding find_blocker_cycle_path
find_blocker_cycle_path-none m id blocker h =
    let ((seen, path), e, h1) = >>=-eq-done (find_path_to m id (search_fuel m) [] blocker) _ h in
    elim (Option-cases path) [
      | inl no_path ↦
          find_path_to_complete m id (search_fuel m) blocker seen
            (e ∙ ap (λ q. done (seen, q)) no_path)
      | inr (p, some_path) ↦ cc (rw some_path at h1)
    ]

contains-append :
    (ids rest : List Bytes) (y : Bytes)
    → contains (ids ++ rest) y ≡ true
    → (contains ids y ≡ true) ⊎ (contains rest y ≡ true)
unfolding contains
contains-append [] rest y h = inr h
contains-append (b ∷ ids) rest y h = elim (Bool-cases (equal b y)) [
  | inl same ↦ inl (rw same refl)
  | inr other ↦ elim (contains-append ids rest y (rw other at h)) [
    | inl k ↦ inl (rw other k)
    | inr k ↦ inr k
  ]
]

contains-take :
    (n : ℕ) (ids : List Bytes) (y : Bytes) → contains (take n ids) y ≡ true → contains ids y ≡ true
unfolding contains
contains-take zero ids y h = cc h
contains-take (suc n) [] y h = cc h
contains-take (suc n) (b ∷ ids) y h = ground (arith, contains-take n ids y)

contains-drop :
    (n : ℕ) (ids : List Bytes) (y : Bytes) → contains (drop n ids) y ≡ true → contains ids y ≡ true
unfolding contains
contains-drop zero ids y h = h
contains-drop (suc n) [] y h = cc h
contains-drop (suc n) (b ∷ ids) y h = ground (arith, contains-drop n ids y)

pub contains-delete_at :
    (ids : List Bytes) (o : Option ℕ) (rest : List Bytes) (y : Bytes)
    → delete_at ids o ≡ done rest
    → contains rest y ≡ true
    → contains ids y ≡ true
contains-delete_at ids none rest y h k = cc h
contains-delete_at ids (some i) rest y h k =
    let same : take i ids ++ drop (suc i) ids ≡ rest = cc h in
    elim (contains-append (take i ids) (drop (suc i) ids) y (ap (λ l. contains l y) same ∙ k)) [
      | inl l ↦ contains-take i ids y l
      | inr l ↦ contains-drop (suc i) ids y l
    ]

-- A pair behind a write: the one of before, or one of the ticket written.
module _ (m : List Ticket) (id : Bytes) (tk : Ticket) (f : Ticket → Ticket)
    (same_id : (t : Ticket) → (f t).id ≡ t.id) (found : find m id ≡ some tk) where
  IsBlocked-modify :
      (x y : Bytes)
      → IsBlocked (modify m id f) x y
      → IsBlocked m x y ⊎ ((x ≡ id) × (contains (f tk).blocked_by y ≡ true))
  IsBlocked-modify x y e = elim (Bool-cases (equal id x)) [
    | inl same ↦
        let here : id ≡ x = (equal_iff id x).0 same in
        let at : find (modify m id f) x ≡ some (f tk) =
          ap (find (modify m id f)) (sym here) ∙ find-modify f same_id m id tk found in
        let is_it : e.ticket ≡ f tk = cc (at, e.found) in
        inr (sym here, ap (λ (t : Ticket). contains t.blocked_by y) (sym is_it) ∙ e.listed)
    | inr other ↦ inl (record {
      ticket = e.ticket;
      found = sym (find-modify_other f same_id m id x other) ∙ e.found;
      listed = e.listed;
    })
  ]

  -- A write that adds no blocker.
  pub modify-IsAcyclic :
      ((y : Bytes) → contains (f tk).blocked_by y ≡ true → contains tk.blocked_by y ≡ true)
      → IsAcyclic m
      → IsAcyclic (modify m id f)
  modify-IsAcyclic fewer a =
      fewer-IsAcyclic m (modify m id f)
        (λ x y e. elim (IsBlocked-modify x y e) [
          | inl old ↦ old
          | inr (here, k) ↦ record {
            ticket = tk;
            found = ap (find m) here ∙ found;
            listed = fewer y k;
          }
        ])
        a

-- A new pair that closes no cycle.
pub block-IsAcyclic :
    (m : List Ticket) (id blocker : Bytes) (tk : Ticket)
    → find m id ≡ some tk
    → find_blocker_cycle_path m id blocker ≡ done none
    → IsAcyclic m
    → IsAcyclic (modify m id (with_blockers (tk.blocked_by ++ blocker ∷ [])))
unfolding contains
block-IsAcyclic m id blocker tk found no_cycle a =
    let f = with_blockers (tk.blocked_by ++ blocker ∷ []) in
    one_more-IsAcyclic m (modify m id f) id blocker
      (λ x y e. elim (IsBlocked-modify m id tk f (λ t. refl) found x y e) [
        | inl old ↦ inl old
        | inr (here, k) ↦ elim (contains-append tk.blocked_by (blocker ∷ []) y k) [
          | inl old ↦ inl (record { ticket = tk; found = ap (find m) here ∙ found; listed = old })
          | inr new ↦ inr (here, sym ((equal_iff blocker y).0 (ground arith)))
        ]
      ])
      (find_blocker_cycle_path-none m id blocker no_cycle) a
