-- ===== src/Model/Fuel.antt =====
-- The searches of the model return: their fuel is more than the number of tickets not seen yet.
use agent_task.Prelude.{
  ℕ, zero, suc, ◌≤◌, ◌<◌, ◌≡◌, refl, sym, ap, ◌∙◌, true, false, Option, none, some, List, [], ◌∷◌,
  inl, inr, arith, Bool-cases, Option-cases, All, if◌then◌else◌, subst, length,
}
use agent_task.Text.{Bytes, equal, equal_iff, equal_refl, contains}
use agent_task.Model.{Outcome, done, Ticket, find, is_some, is_closed}
use agent_task.Model.Graph.{
  Search, first_path, in_front, find_path_to, search_fuel, find_open_blocker, find_ancestor,
}
use agent_task.Model.Invariant.{IsConsistent}
use agent_task.Model.Lookup.{find-id}

-- The tickets whose id is not among those seen.
pub unseen : List Ticket → List Bytes → ℕ
unseen [] seen = 0
unseen (t ∷ m) seen = let rest = unseen m seen in if contains seen t.id then rest else suc rest

abbrev Grows : List Bytes → List Bytes → Type 0
Grows before after = (x : Bytes) → contains before x ≡ true → contains after x ≡ true

unseen-le-length : (m : List Ticket) (seen : List Bytes) → unseen m seen ≤ length m
unfolding unseen
unseen-le-length [] seen = omega arith
unseen-le-length (t ∷ m) seen = ground (arith, unseen-le-length m seen)

unseen_mono :
    (m : List Ticket) (before after : List Bytes)
    → Grows before after
    → unseen m after ≤ unseen m before
unfolding unseen
unseen_mono [] before after g = omega arith
unseen_mono (t ∷ m) before after g = ground (arith, unseen_mono m before after g, g t.id)

on_top : (seen : List Bytes) (y : Bytes) → Grows seen (y ∷ seen)
unfolding contains
on_top seen y x h = ground arith

-- Seeing one more ticket leaves fewer to see.
unseen-visit :
    (m : List Ticket) (seen : List Bytes) (x : Bytes) (t : Ticket)
    → find m x ≡ some t
    → contains seen x ≡ false
    → unseen m (x ∷ seen) < unseen m seen
unfolding find unseen
unseen-visit [] seen x t f h = cc f
unseen-visit (u ∷ m) seen x t f h = elim (Bool-cases (equal u.id x)) [
  | inl same ↦
      let here : u.id ≡ x = (equal_iff u.id x).0 same in
      let top : contains (x ∷ seen) u.id ≡ true =
        unfold contains in rw (ap (λ i. equal x i) here ∙ equal_refl x) refl in
      let before : contains seen u.id ≡ false = ap (contains seen) here ∙ h in
      let le = unseen_mono m seen (x ∷ seen) (on_top seen x) in rw (top, before) (omega (arith, le))
  | inr other ↦
      let lt = unseen-visit m seen x t (rw other at f) h in ground (arith, lt, on_top seen x u.id)
]

-- What a search returns: some result, and nothing that it had seen is lost.
abbrev Fits : List Bytes → Outcome Search → Type 0
Fits before o =
    (after : List Bytes) × (path : Option (List Bytes)) × (o ≡ done (after, path))
    × Grows before after

module _ (m : List Ticket) (target : Bytes) (c : IsConsistent m) where
  first_path-Fits :
      (go : List Bytes → Bytes → Outcome Search) (bound : ℕ)
      → ((seen : List Bytes) (b : Bytes)
          → is_some (find m b) ≡ true
          → unseen m seen < bound
          → Fits seen (go seen b))
      → (blockers before : List Bytes) → All (λ b. is_some (find m b) ≡ true) blockers
      → unseen m before < bound
      → Fits before (first_path go before blockers)
  unfolding first_path
  first_path-Fits go bound h [] before a lt = (before, none, refl, λ x k. k)
  first_path-Fits go bound h (b ∷ blockers) before (s, a) lt =
      let (seen, path, e, g) = h before b s lt in
      let le = unseen_mono m before seen g in
      let (after, path', e', g') = first_path-Fits go bound h blockers seen a (omega (arith, le)) in
      elim (Option-cases path) [
        | inl nothing ↦
            (after, path', rw (e ∙ ap (λ p. done (seen, p)) nothing) e', λ x k. g' x (g x k))
        | inr (p, is_it) ↦ (seen, some p, rw (e ∙ ap (λ p. done (seen, p)) is_it) refl, g)
      ]

  seen_by :
      (from : Bytes) (s : Search)
      → (after : List Bytes) × (path : Option (List Bytes)) × (in_front from s ≡ (after, path))
        × (after ≡ s.0)
  seen_by from (after, none) = (after, none, refl, refl)
  seen_by from (after, some p) = (after, some (from ∷ p), refl, refl)

  find_path_to-Fits :
      (fuel : ℕ) (before : List Bytes) (from : Bytes)
      → is_some (find m from) ≡ true
      → unseen m before < fuel
      → Fits before (find_path_to m target fuel before from)
  unfolding find_path_to
  find_path_to-Fits zero before from s lt = absurd (omega arith)
  find_path_to-Fits (suc fuel) before from s lt = elim (Bool-cases (contains before from)) [
    | inl seen ↦ (before, none, rw seen refl, λ x k. k)
    | inr fresh ↦ elim (Bool-cases (equal from target)) [
      | inl here ↦ (from ∷ before, some (target ∷ []), rw (fresh, here) refl, on_top before from)
      | inr differs ↦ elim (Option-cases (find m from)) [
        | inl missing ↦ cc (ap is_some missing, s)
        | inr (t, found) ↦
            let less = unseen-visit m before from t found fresh in
            let (seen, path, e, g) =
              first_path-Fits (find_path_to m target fuel) fuel (find_path_to-Fits fuel)
                t.blocked_by (from ∷ before) (c.linked from t found).blockers
                (omega (arith, less)) in
            let (after, path', e', same) = seen_by from (seen, path) in
            (
              after,
              path',
              rw (fresh, differs, found, e) (ap done e'),
              λ x k. subst (λ l. contains l x ≡ true) (sym same) (g x (on_top before from x k)),
            )
      ]
    ]
  ]

pub find_open_blocker-done :
    (m : List Ticket) (blockers : List Bytes)
    → All (λ b. is_some (find m b) ≡ true) blockers
    → (b : Bytes) × (find_open_blocker m blockers ≡ done b)
unfolding find_open_blocker
find_open_blocker-done m [] a = ([], refl)
find_open_blocker-done m (b ∷ blockers) (s, a) = elim (Option-cases (find m b)) [
  | inl missing ↦ cc (ap is_some missing, s)
  | inr (t, found) ↦ elim (Bool-cases (is_closed t.status)) [
    | inl over ↦ let (r, e) = find_open_blocker-done m blockers a in (r, rw (found, over) e)
    | inr live ↦ (b, rw (found, live) refl)
  ]
]

module _ (m : List Ticket) (c : IsConsistent m) where
  -- The search for a blocker path returns.
  pub find_path_to-done :
      (target from : Bytes)
      → is_some (find m from) ≡ true
      → (s : Search) × (find_path_to m target (search_fuel m) [] from ≡ done s)
  find_path_to-done target from h =
      let le = unseen-le-length m [] in
      let (after, path, e, _) =
        find_path_to-Fits m target c (search_fuel m) [] from h (omega (arith, le)) in
      ((after, path), e)

  find_ancestor-returns :
      (fuel : ℕ) (visited : List Bytes) (tk : Ticket)
      → find m tk.id ≡ some tk
      → unseen m visited < fuel
      → (r : Option Bytes) × (find_ancestor m fuel visited tk ≡ done r)
  unfolding find_ancestor
  find_ancestor-returns zero visited tk f lt = absurd (omega arith)
  find_ancestor-returns (suc fuel) visited tk f lt =
      let (b, e) = find_open_blocker-done m tk.blocked_by (c.linked tk.id tk f).blockers in
      elim (Bool-cases (contains visited tk.id)) [
        | inl seen ↦ (some tk.id, rw seen refl)
        | inr fresh ↦ elim (Bool-cases (equal b [])) [
          | inr blocked ↦ (some tk.id, rw (fresh, e, blocked) refl)
          | inl free ↦ elim (Bool-cases (equal tk.parent_id [])) [
            | inl root ↦ (none, rw (fresh, e, free, root) refl)
            | inr child ↦ elim (Option-cases (find m tk.parent_id)) [
              | inl missing ↦ cc (ap is_some missing, (c.linked tk.id tk f).parent child)
              | inr (p, found) ↦
                  let less = unseen-visit m visited tk.id tk f fresh in
                  let (r, e') =
                    find_ancestor-returns fuel (tk.id ∷ visited) p
                      (ap (find m) (find-id m tk.parent_id p found) ∙ found)
                      (omega (arith, less)) in
                  (r, rw (fresh, e, free, child, found) e')
            ]
          ]
        ]
      ]

  -- The walk over the ancestors returns.
  pub find_ancestor-done :
      (tk : Ticket)
      → find m tk.id ≡ some tk
      → (r : Option Bytes) × (find_ancestor m (search_fuel m) [] tk ≡ done r)
  find_ancestor-done tk f =
      let le = unseen-le-length m [] in
      find_ancestor-returns (search_fuel m) [] tk f (omega (arith, le))
