-- ===== src/Model/Readiness.antt =====
-- `Ready` answers in every state that commands lead to.
use agent_task.Prelude.{
  ℕ, ◌≡◌, ◌⊎◌, refl, sym, ap, ◌∙◌, Option, none, some, List, [], ◌∷◌, ◌++◌, All, inl, inr,
  Bool-cases, subst, ◌==◌, not, ◌&&◌, leb, ltb, drop, length,
}
use agent_task.Text.{Bytes, equal, equal_iff, equal_refl, ℤ, pos, negsuc}
use agent_task.Model.{Outcome, done, refused, panicked, out_of_fuel, ErrCode, Ticket, find}
use agent_task.Model.Graph.{can_start}
use agent_task.Model.Commands.{with_blockers}
use agent_task.Model.Invariant.{IsConsistent}
use agent_task.Model.Creation.{create-IsFresh}
use agent_task.Model.Writes.{
  Writes, block-adds, start-Writes, close-Writes, reopen-Writes, unblock-Writes,
}
use agent_task.Model.Reachable.{
  Command, creation, starting, closing, reopening, blocking, unblocking, run, Reachable, at_start,
  behind, Reachable-IsConsistent,
}
use agent_task.Model.Totality.{Answers, Answers-done, Answers-bind, Answers-if, can_start-Answers}
use agent_task.Model.Views.{natural, paged, startable, keep_if, sort, ready}
use agent_task.Model.Lists.{IsSorted, ready-IsSorted}
use agent_task.Model.Distinct.{IsDistinct, modify-IsDistinct, snoc-IsDistinct}

Writes-IsDistinct :
    (m changed : List Ticket) (id : Bytes) → Writes m changed id → IsDistinct m → IsDistinct changed
Writes-IsDistinct m changed id w d =
    subst IsDistinct w.written (modify-IsDistinct w.write w.same_id m id d)

module _ (parse_time : Bytes → Option ℕ) where
  run-IsDistinct :
      (c : Command) (m changed : List Ticket)
      → IsConsistent m
      → run parse_time c m ≡ done changed
      → IsDistinct m
      → IsDistinct changed
  run-IsDistinct (creation user id text) m changed k h d =
      let (n, fresh, written) = create-IsFresh m k parse_time user id text changed h in
      subst IsDistinct written (snoc-IsDistinct m n fresh.unused d)
  run-IsDistinct (starting id by text) m changed k h d =
      Writes-IsDistinct m changed id (start-Writes parse_time m changed id by text h) d
  run-IsDistinct (closing id text) m changed k h d =
      Writes-IsDistinct m changed id (close-Writes parse_time m changed id text h) d
  run-IsDistinct (reopening id) m changed k h d =
      Writes-IsDistinct m changed id (reopen-Writes m changed id h) d
  run-IsDistinct (blocking id b) m changed k h d =
      let (tk, _, _, written) = block-adds m changed id b h in
      subst IsDistinct written
        (modify-IsDistinct (with_blockers (tk.blocked_by ++ b ∷ [])) (λ t. refl) m id d)
  run-IsDistinct (unblocking id b) m changed k h d =
      Writes-IsDistinct m changed id (unblock-Writes m changed id b h) d

  pub Reachable-IsDistinct : (m : List Ticket) → Reachable parse_time m → IsDistinct m
  Reachable-IsDistinct _ at_start = tt
  Reachable-IsDistinct _ (behind {m} {changed} c r e) =
      run-IsDistinct c m changed (Reachable-IsConsistent parse_time m r) e
        (Reachable-IsDistinct m r)

-- Each ticket of a list is found at its id.
abbrev pub IsHere : List Ticket → Ticket → Type 0
IsHere m t = find m t.id ≡ some t

cons-IsHere : (t u : Ticket) (m : List Ticket) → find m t.id ≡ none → IsHere m u → IsHere (t ∷ m) u
unfolding find
cons-IsHere t u m unused here = elim (Bool-cases (equal t.id u.id)) [
  | inl same ↦
      let e : t.id ≡ u.id = (equal_iff t.id u.id).0 same in cc (sym unused ∙ ap (find m) e ∙ here)
  | inr other ↦ rw other here
]

cons-All :
    (t : Ticket) (m tickets : List Ticket)
    → find m t.id ≡ none
    → All (IsHere m) tickets
    → All (IsHere (t ∷ m)) tickets
cons-All t m [] unused a = tt
cons-All t m (u ∷ tickets) unused (h, a) =
    (cons-IsHere t u m unused h, cons-All t m tickets unused a)

pub All-IsHere : (m : List Ticket) → IsDistinct m → All (IsHere m) m
All-IsHere [] d = tt
All-IsHere (t ∷ m) (unused, d) =
    (unfold find in rw (equal_refl t.id) refl, cons-All t m m unused (All-IsHere m d))

keep_if-Answers :
    (t : Ticket) (o : Outcome (Unit {0})) (rest : List Ticket)
    → Answers o
    → Answers (keep_if t o rest)
keep_if-Answers t (done u) rest a = Answers-done
keep_if-Answers t (refused code) rest a = record { holds = refl }
keep_if-Answers t panicked rest a = cc a.holds
keep_if-Answers t out_of_fuel rest a = cc a.holds

startable-Answers :
    (m : List Ticket)
    → IsConsistent m
    → (tickets : List Ticket) → All (IsHere m) tickets
    → Answers (startable m tickets)
unfolding startable
startable-Answers m c [] a = Answers-done
startable-Answers m c (t ∷ tickets) (here, a) =
    Answers-bind (startable m tickets) _ (startable-Answers m c tickets a)
      (λ rest _. keep_if-Answers t (can_start m t) rest (can_start-Answers m c t.id t here))

pub natural-Answers : (code : ErrCode) (z : ℤ) → Answers (natural code z)
natural-Answers code (pos n) = Answers-done
natural-Answers code (negsuc n) = record { holds = refl }

pub paged-Answers :
    (offset limit : ℕ) (tickets : List Ticket) → Answers (paged offset limit tickets)
unfolding paged
paged-Answers offset limit tickets =
    Answers-if (not (offset == 0) && leb (length tickets) offset) _ _ (λ _. record { holds = refl })
      (λ _.
        Answers-if (not (limit == 0) && ltb limit (length (drop offset tickets))) _ _
          (λ _. Answers-done) (λ _. Answers-done))

ready-Answers :
    (m : List Ticket)
    → IsConsistent m
    → IsDistinct m
    → (offset limit : ℤ) → Answers (ready m offset limit)
unfolding ready
ready-Answers m c d offset limit =
    Answers-bind (natural _ offset) _ (natural-Answers _ offset) (λ o _.
      Answers-bind (natural _ limit) _ (natural-Answers _ limit) (λ l _.
        Answers-bind (startable m m) _ (startable-Answers m c m (All-IsHere m d))
          (λ tickets _. paged-Answers o l (sort tickets))))

pub Answers-cases :
    (o : Outcome (List Ticket))
    → Answers o
    → ((out : List Ticket) × (o ≡ done out)) ⊎ ((code : ErrCode) × (o ≡ refused code))
Answers-cases (done out) a = inl (out, refl)
Answers-cases (refused code) a = inr (code, refl)
Answers-cases panicked a = cc a.holds
Answers-cases out_of_fuel a = cc a.holds

-- In a state that commands lead to, `Ready` returns tickets or an error. Every ticket that it returns
-- can be started, and the tickets come by priority.
pub ready_lem :
    (parse_time : Bytes → Option ℕ) (m : List Ticket) (offset limit : ℤ)
    → Reachable parse_time m
    → ((out : List Ticket) × (ready m offset limit ≡ done out)
        × All (λ t. can_start m t ≡ done tt) out
        × IsSorted out)
      ⊎ ((code : ErrCode) × (ready m offset limit ≡ refused code))
ready_lem parse_time m offset limit r =
    elim (Answers-cases (ready m offset limit) (
      ready-Answers m (Reachable-IsConsistent parse_time m r) (Reachable-IsDistinct parse_time m r)
        offset limit)) [
          | inl (out, e) ↦
              let (can, sorted) = ready-IsSorted m offset limit out e in inl (out, e, can, sorted)
          | inr (code, e) ↦ inr (code, e)
        ]
