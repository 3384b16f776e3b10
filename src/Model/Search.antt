-- ===== src/Model/Search.antt =====
-- What the search for a blocker path has seen when it finds none.
use mathlib.Core.Bool.{true≢false}
use agent_task.Prelude.{
  ℕ, zero, suc, ◌≡◌, ◌⊎◌, refl, sym, ap, ◌∙◌, true, false, none, some, List, [], ◌∷◌, inl, inr,
  arith, Bool-cases, Option-cases, All, subst,
}
use agent_task.Text.{Bytes, equal, equal_iff, equal_refl, contains}
use agent_task.Model.{Outcome, done, Ticket, find, deref}
use agent_task.Model.Graph.{Search, first_path, in_front, find_path_to}
use agent_task.Model.Inversion.{>>=-eq-done, deref-done}
use agent_task.Model.Changes.{All-map}
use agent_task.Model.Chains.{Chain, one, more, Leads}

abbrev Sees : List Bytes → Bytes → Type 0
Sees seen b = contains seen b ≡ true

module _ (m : List Ticket) (target : Bytes) where
  -- A ticket that is not the target, and whose blockers have all been seen.
  record IsDone (seen : List Bytes) (x : Bytes) : Type 0 where
    differs : equal x target ≡ false
    next : (t : Ticket) → find m x ≡ some t → All (Sees seen) t.blocked_by

  -- From one list of seen ids to another: none is lost, and the new ones are done.
  record Extends (before after : List Bytes) : Type 0 where
    keeps : (x : Bytes) → Sees before x → Sees after x
    finishes : (x : Bytes) → Sees after x → Sees before x ⊎ IsDone after x

  IsDone-map :
      {before after : List Bytes} {x : Bytes}
      → ((b : Bytes) → Sees before b → Sees after b)
      → IsDone before x
      → IsDone after x
  IsDone-map f d = record { differs = d.differs; next = λ t e. All-map t.blocked_by f (d.next t e) }

  Extends-refl : (seen : List Bytes) → Extends seen seen
  Extends-refl seen = record { keeps = λ x h. h; finishes = λ x h. inl h }

  Extends-trans : (a b c : List Bytes) → Extends a b → Extends b c → Extends a c
  Extends-trans a b c p q = record {
    keeps = λ x h. q.keeps x (p.keeps x h);
    finishes = λ x h. elim (q.finishes x h) [
      | inl k ↦ elim (p.finishes x k) [ inl l ↦ inl l | inr d ↦ inr (IsDone-map q.keeps d) ]
      | inr d ↦ inr d
    ];
  }

  abbrev Finds : (List Bytes → Bytes → Outcome Search) → Type 0
  Finds go =
      (before after : List Bytes) (b : Bytes)
      → go before b ≡ done (after, none)
      → Sees after b × Extends before after

  first_path-none :
      (go : List Bytes → Bytes → Outcome Search)
      → Finds go
      → (blockers before after : List Bytes) → first_path go before blockers ≡ done (after, none)
      → All (Sees after) blockers × Extends before after
  unfolding first_path
  first_path-none go h [] before after e = (tt, subst (Extends before) (cc e) (Extends-refl before))
  first_path-none go h (b ∷ blockers) before after e =
      let ((seen, path), e1, e2) = >>=-eq-done (go before b) _ e in
      elim (Option-cases path) [
        | inl no_path ↦
            let (sees, first) = h before seen b (e1 ∙ ap (λ q. done (seen, q)) no_path) in
            let (all_seen, rest) = first_path-none go h blockers seen after (rw no_path at e2) in
            ((rest.keeps b sees, all_seen), Extends-trans before seen after first rest)
        | inr (p, some_path) ↦ cc (rw some_path at e2)
      ]

  -- A ticket that has just been marked as seen is done once its blockers have been seen.
  Extends-visit :
      (before after : List Bytes) (from : Bytes) (t : Ticket)
      → equal from target ≡ false
      → find m from ≡ some t
      → All (Sees after) t.blocked_by
      → Extends (from ∷ before) after
      → Sees after from × Extends before after
  unfolding contains
  Extends-visit before after from t differs found all_seen ext =
      let on_top : (x : Bytes) → Sees before x → Sees (from ∷ before) x =
        λ x h. ground (arith, h) in
      (
        ext.keeps from (rw (equal_refl from) refl),
        record {
          keeps = λ x h. ext.keeps x (on_top x h);
          finishes = λ x h. elim (ext.finishes x h) [
            | inl top ↦ elim (Bool-cases (equal from x)) [
              | inl same ↦ inr (
                  subst (IsDone after) ((equal_iff from x).0 same) (record {
                    differs = differs;
                    next = λ u e.
                        let same_ticket : t ≡ u = cc (found, e) in
                        subst (λ (v : Ticket). All (Sees after) v.blocked_by) same_ticket all_seen;
                  }))
              | inr other ↦ inl (rw other at top)
            ]
            | inr d ↦ inr d
          ];
        },
      )

  found_none :
      (from : Bytes) (s : Search) (after : List Bytes)
      → done (in_front from s) ≡ done (after, none)
      → s ≡ (after, none)
  found_none from (seen, none) after h = cc h
  found_none from (seen, some p) after h = cc h

  find_path_to-none : (fuel : ℕ) → Finds (find_path_to m target fuel)
  unfolding find_path_to
  find_path_to-none zero before after from h = cc h
  find_path_to-none (suc fuel) before after from h = elim (Bool-cases (contains before from)) [
    | inl seen ↦
        let same : before ≡ after = cc (rw seen at h) in
        (
          ap (λ l. contains l from) (sym same) ∙ seen,
          subst (Extends before) same (Extends-refl before),
        )
    | inr unseen ↦ elim (Bool-cases (equal from target)) [
      | inl here ↦ cc (rw (unseen, here) at h)
      | inr differs ↦
          let (t, e1, h1) = >>=-eq-done (deref (find m from)) _ (rw (unseen, differs) at h) in
          let found = deref-done (find m from) e1 in
          let (s, e2, h2) =
            >>=-eq-done (first_path (find_path_to m target fuel) (from ∷ before) t.blocked_by) _
              h1 in
          let (all_seen, ext) =
            first_path-none (find_path_to m target fuel) (find_path_to-none fuel) t.blocked_by
              (from ∷ before) after (e2 ∙ ap done (found_none from s after h2)) in
          Extends-visit before after from t differs found all_seen ext
    ]
  ]

  All-contains :
      (seen ids : List Bytes) (y : Bytes)
      → All (Sees seen) ids
      → contains ids y ≡ true
      → Sees seen y
  unfolding contains
  All-contains seen [] y a h = cc h
  All-contains seen (b ∷ ids) y (s, a) h = elim (Bool-cases (equal b y)) [
    | inl same ↦ subst (Sees seen) ((equal_iff b y).0 same) s
    | inr other ↦ All-contains seen ids y a (rw other at h)
  ]

  never_there :
      (seen : List Bytes)
      → ((x : Bytes) → Sees seen x → IsDone seen x)
      → {x y : Bytes} → Chain m x y
      → Sees seen x
      → Sees seen y
  never_there seen f (one {x} {y} e) h =
      All-contains seen e.ticket.blocked_by y ((f x h).next e.ticket e.found) e.listed
  never_there seen f (more {x} {y} {z} e c) h =
      never_there seen f c
        (All-contains seen e.ticket.blocked_by y ((f x h).next e.ticket e.found) e.listed)

  -- A search that starts with nothing seen and finds no path: no chain leads to the target.
  pub find_path_to_complete :
      (fuel : ℕ) (from : Bytes) (seen : List Bytes)
      → find_path_to m target fuel [] from ≡ done (seen, none)
      → ¬ Leads m from target
  unfolding contains
  find_path_to_complete fuel from seen h l =
      let (sees, ext) = find_path_to-none fuel [] seen from h in
      let finished : (x : Bytes) → Sees seen x → IsDone seen x =
        λ x k. elim (ext.finishes x k) [ inl nothing ↦ cc nothing | inr d ↦ d ] in
      let there : Sees seen target = elim l [
        | inl same ↦ subst (Sees seen) same sees
        | inr c ↦ never_there seen finished c sees
      ] in
      true≢false (sym (equal_refl target) ∙ (finished target there).differs)
