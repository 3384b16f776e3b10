-- ===== src/Model/Detection.antt =====
-- The search for a blocker cycle finds one exactly if the new pair would close one.
use agent_task.Prelude.{
  ℕ, zero, suc, ◌≡◌, ◌⊎◌, refl, ap, ◌∙◌, true, Option, none, some, List, [], ◌∷◌, inl, inr, arith,
  Bool-cases, Option-cases,
}
use agent_task.Text.{Bytes, equal, equal_iff, equal_refl, contains}
use agent_task.Model.{Outcome, done, Ticket, find, is_some, deref}
use agent_task.Model.Graph.{
  Search, first_path, in_front, find_path_to, search_fuel, find_blocker_cycle_path,
}
use agent_task.Model.Inversion.{>>=-eq-done, deref-done}
use agent_task.Model.Chains.{Leads, Leads-cons}
use agent_task.Model.Acyclic.{find_blocker_cycle_path-none}
use agent_task.Model.Totality.{find_blocker_cycle_path-done}
use agent_task.Model.Reachable.{Reachable, Reachable-IsConsistent}

module _ (m : List Ticket) (target : Bytes) where
  abbrev Finds : (List Bytes → Bytes → Outcome Search) → Type 0
  Finds go =
      (before after : List Bytes) (b : Bytes) (p : List Bytes)
      → go before b ≡ done (after, some p)
      → Leads m b target

  first_path-some :
      (go : List Bytes → Bytes → Outcome Search)
      → Finds go
      → (blockers before after : List Bytes) (p : List Bytes)
      → first_path go before blockers ≡ done (after, some p)
      → (b : Bytes) × (contains blockers b ≡ true) × Leads m b target
  unfolding first_path contains
  first_path-some go h [] before after p e = cc e
  first_path-some go h (b ∷ blockers) before after p e =
      let ((seen, path), e1, e2) = >>=-eq-done (go before b) _ e in
      elim (Option-cases path) [
        | inl no_path ↦
            let (d, listed, l) = first_path-some go h blockers seen after p (rw no_path at e2) in
            (d, ground arith, l)
        | inr (q, some_path) ↦
            (b, rw (equal_refl b) refl, h before seen b q (e1 ∙ ap (λ r. done (seen, r)) some_path))
      ]

  behind_front :
      (from : Bytes) (s : Search) (after p : List Bytes)
      → done (in_front from s) ≡ done (after, some p)
      → (q : List Bytes) × (s ≡ (after, some q))
  behind_front from (seen, none) after p h = cc h
  behind_front from (seen, some q) after p h =
      let same : seen ≡ after = cc h in (q, ap (λ l. (l, some q)) same)

  find_path_to-some : (fuel : ℕ) → Finds (find_path_to m target fuel)
  unfolding find_path_to
  find_path_to-some zero before after from p h = cc h
  find_path_to-some (suc fuel) before after from p h = elim (Bool-cases (contains before from)) [
    | inl seen ↦ cc (rw seen at h)
    | inr fresh ↦ elim (Bool-cases (equal from target)) [
      | inl here ↦ inl ((equal_iff from target).0 here)
      | inr differs ↦
          let (t, e1, h1) = >>=-eq-done (deref (find m from)) _ (rw (fresh, differs) at h) in
          let (s, e2, h2) =
            >>=-eq-done (first_path (find_path_to m target fuel) (from ∷ before) t.blocked_by) _
              h1 in
          let (q, is_s) = behind_front from s after p h2 in
          let (b, listed, l) =
            first_path-some (find_path_to m target fuel) (find_path_to-some fuel) t.blocked_by
              (from ∷ before) after q (e2 ∙ ap done is_s) in
          inr (
            Leads-cons (record { ticket = t; found = deref-done (find m from) e1; listed = listed })
              l)
    ]
  ]

find_blocker_cycle_path-some :
    (m : List Ticket) (id blocker : Bytes) (p : List Bytes)
    → find_blocker_cycle_path m id blocker ≡ done (some p)
    → Leads m blocker id
unfolding find_blocker_cycle_path
find_blocker_cycle_path-some m id blocker p h =
    let ((seen, path), e, h1) = >>=-eq-done (find_path_to m id (search_fuel m) [] blocker) _ h in
    elim (Option-cases path) [
      | inl no_path ↦ cc (rw no_path at h1)
      | inr (q, some_path) ↦
          find_path_to-some m id (search_fuel m) [] seen blocker q
            (e ∙ ap (λ r. done (seen, r)) some_path)
    ]

-- In a state that commands lead to, the search for a cycle ends for a blocker that exists. It finds a
-- path exactly if the ticket is the blocker, or the blocker waits for it through a chain of blockers.
pub find_blocker_cycle_path_lem :
    (parse_time : Bytes → Option ℕ) (m : List Ticket) (id blocker : Bytes)
    → Reachable parse_time m
    → is_some (find m blocker) ≡ true
    → ((find_blocker_cycle_path m id blocker ≡ done none) × ¬ Leads m blocker id)
      ⊎ ((p : List Bytes) × (find_blocker_cycle_path m id blocker ≡ done (some p))
          × Leads m blocker id)
find_blocker_cycle_path_lem parse_time m id blocker r h =
    let (o, e) =
      find_blocker_cycle_path-done m (Reachable-IsConsistent parse_time m r) id blocker h in
    elim (Option-cases o) [
      | inl nothing ↦
          let done_none = e ∙ ap done nothing in
          inl (done_none, find_blocker_cycle_path-none m id blocker done_none)
      | inr (p, something) ↦
          let done_some = e ∙ ap done something in
          inr (p, done_some, find_blocker_cycle_path-some m id blocker p done_some)
    ]
