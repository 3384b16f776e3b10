-- ===== src/Model/Completeness.antt =====
-- `Ready` leaves out no ticket that can be started.
use agent_task.Prelude.{
  ℕ, ◌≡◌, refl, sym, ap, ◌∙◌, true, ◌||◌, Option, some, List, [], ◌∷◌, All, inl, inr, arith,
  Bool-cases, leb,
}
use agent_task.Text.{Bytes, equal, contains, pos}
use agent_task.Model.{Outcome, done, refused, panicked, out_of_fuel, ◌>>=◌, Ticket, find}
use agent_task.Model.Graph.{can_start}
use agent_task.Model.Inversion.{>>=-eq-done}
use agent_task.Model.Invariant.{IsConsistent}
use agent_task.Model.Reachable.{Reachable, Reachable-IsConsistent}
use agent_task.Model.Totality.{Answers, can_start-Answers}
use agent_task.Model.Views.{ids, paged, startable, keep_if, insert, sort, ready}
use agent_task.Model.Readiness.{IsHere, All-IsHere, Reachable-IsDistinct}

insert-ids :
    (t : Ticket) (tickets : List Ticket) (x : Bytes)
    → contains (ids (insert t tickets)) x ≡ (equal t.id x || contains (ids tickets) x)
unfolding insert ids contains
insert-ids t [] x = ground arith
insert-ids t (u ∷ tickets) x = elim (Bool-cases (leb t.priority u.priority)) [
  | inl above ↦ rw above (ground arith)
  | inr below ↦ rw (below, insert-ids t tickets x) (ground arith)
]

sort-ids :
    (tickets : List Ticket) (x : Bytes) → contains (ids (sort tickets)) x ≡ contains (ids tickets) x
unfolding sort ids contains
sort-ids [] x = refl
sort-ids (t ∷ tickets) x = rw (insert-ids t (sort tickets) x, sort-ids tickets x) (ground arith)

keep_if-done :
    (t : Ticket) (o : Outcome (Unit {0})) (rest : List Ticket)
    → Answers o
    → (out : List Ticket) × (keep_if t o rest ≡ done out)
keep_if-done t (done u) rest a = (t ∷ rest, refl)
keep_if-done t (refused code) rest a = (rest, refl)
keep_if-done t panicked rest a = cc a.holds
keep_if-done t out_of_fuel rest a = cc a.holds

startable-done :
    (m : List Ticket)
    → IsConsistent m
    → (tickets : List Ticket) → All (IsHere m) tickets
    → (out : List Ticket) × (startable m tickets ≡ done out)
unfolding startable
startable-done m c [] a = ([], refl)
startable-done m c (t ∷ tickets) (here, a) =
    let (rest, e) = startable-done m c tickets a in
    rw e (keep_if-done t (can_start m t) rest (can_start-Answers m c t.id t here))

keep_if-ids :
    (t : Ticket) (o : Outcome (Unit {0})) (rest out : List Ticket) (x : Bytes)
    → keep_if t o rest ≡ done out
    → contains (ids rest) x ≡ true
    → contains (ids out) x ≡ true
unfolding ids contains
keep_if-ids t (done u) rest out x h c =
    let same : t ∷ rest ≡ out = cc h in ap (λ l. contains (ids l) x) (sym same) ∙ ground arith
keep_if-ids t (refused code) rest out x h c =
    let same : rest ≡ out = cc h in ap (λ l. contains (ids l) x) (sym same) ∙ c
keep_if-ids t panicked rest out x h c = cc h
keep_if-ids t out_of_fuel rest out x h c = cc h

startable-keeps :
    (m tickets out : List Ticket) (id : Bytes) (t : Ticket)
    → find tickets id ≡ some t
    → can_start m t ≡ done tt
    → startable m tickets ≡ done out
    → contains (ids out) id ≡ true
unfolding find startable ids contains
startable-keeps m [] out id t f s h = cc f
startable-keeps m (u ∷ tickets) out id t f s h =
    let (rest, e, h1) = >>=-eq-done (startable m tickets) _ h in
    elim (Bool-cases (equal u.id id)) [
      | inl same ↦
          let here : u ≡ t = cc (rw same at f) in
          let can : can_start m u ≡ done tt = ap (can_start m) here ∙ s in
          let first : u ∷ rest ≡ out = cc (rw can at h1) in
          ap (λ l. contains (ids l) id) (sym first) ∙ rw same refl
      | inr other ↦
          keep_if-ids u (can_start m u) rest out id h1
            (startable-keeps m tickets rest id t (rw other at f) s e)
    ]

-- In a state that commands lead to, `Ready` without an offset or a limit returns a list, and every
-- ticket that can be started is in it.
pub ready_complete :
    (parse_time : Bytes → Option ℕ) (m : List Ticket) (id : Bytes) (t : Ticket)
    → Reachable parse_time m
    → find m id ≡ some t
    → can_start m t ≡ done tt
    → (out : List Ticket) × (ready m (pos 0) (pos 0) ≡ done out) × (contains (ids out) id ≡ true)
unfolding ready paged
ready_complete parse_time m id t r f s =
    let (tickets, e) =
      startable-done m (Reachable-IsConsistent parse_time m r) m
        (All-IsHere m (Reachable-IsDistinct parse_time m r)) in
    (
      sort tickets,
      ap (λ o. o >>= λ l. paged 0 0 (sort l)) e,
      sort-ids tickets id ∙ startable-keeps m m tickets id t f s e,
    )
