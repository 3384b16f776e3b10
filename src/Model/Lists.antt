-- ===== src/Model/Lists.antt =====
-- What `LS` and `Ready` return.
use agent_task.Prelude.{
  ℕ, zero, suc, ◌≤◌, ◌≡◌, refl, not, ◌&&◌, List, [], ◌∷◌, ltb, leb, ◌==◌, take, drop, length, All,
  All-take, All-drop, arith, inl, inr, Bool-cases, subst,
}
use agent_task.Text.{ℤ}
use agent_task.Model.{Outcome, done, refused, panicked, out_of_fuel, Ticket}
use agent_task.Model.Graph.{can_start}
use agent_task.Model.Inversion.{>>=-eq-done}
use agent_task.Model.Views.{natural, paged, startable, keep_if, insert, sort, ready}

-- Every ticket has at most the priority number of those behind it.
abbrev pub IsSorted : List Ticket → Type 0
IsSorted [] = Unit
IsSorted (t ∷ tickets) = All (λ (u : Ticket). t.priority ≤ u.priority) tickets × IsSorted tickets

insert-All :
    (P : Ticket → Type 0) (t : Ticket) (tickets : List Ticket)
    → P t
    → All P tickets
    → All P (insert t tickets)
unfolding insert
insert-All P t [] p a = (p, tt)
insert-All P t (u ∷ tickets) p (q, a) = elim (Bool-cases (leb t.priority u.priority)) [
  | inl above ↦ rw above (p, (q, a))
  | inr below ↦ rw below (q, insert-All P t tickets p a)
]

sort-All : (P : Ticket → Type 0) (tickets : List Ticket) → All P tickets → All P (sort tickets)
unfolding sort
sort-All P [] a = tt
sort-All P (t ∷ tickets) (p, a) = insert-All P t (sort tickets) p (sort-All P tickets a)

All-le :
    (p q : ℕ) (tickets : List Ticket)
    → p ≤ q
    → All (λ (u : Ticket). q ≤ u.priority) tickets
    → All (λ (u : Ticket). p ≤ u.priority) tickets
All-le p q [] h a = tt
All-le p q (u ∷ tickets) h (k, a) = (omega (arith, h, k), All-le p q tickets h a)

insert-IsSorted :
    (t : Ticket) (tickets : List Ticket) → IsSorted tickets → IsSorted (insert t tickets)
unfolding insert
insert-IsSorted t [] s = (tt, tt)
insert-IsSorted t (u ∷ tickets) (a, s) = elim (Bool-cases (leb t.priority u.priority)) [
  | inl above ↦
      let le : t.priority ≤ u.priority = ground arith in
      rw above ((le, All-le t.priority u.priority tickets le a), (a, s))
  | inr below ↦ rw below (insert-All _ t tickets (ground arith) a, insert-IsSorted t tickets s)
]

sort-IsSorted : (tickets : List Ticket) → IsSorted (sort tickets)
unfolding sort
sort-IsSorted [] = tt
sort-IsSorted (t ∷ tickets) = insert-IsSorted t (sort tickets) (sort-IsSorted tickets)

take-IsSorted : (n : ℕ) (tickets : List Ticket) → IsSorted tickets → IsSorted (take n tickets)
take-IsSorted zero tickets s = tt
take-IsSorted (suc n) [] s = tt
take-IsSorted (suc n) (t ∷ tickets) (a, s) = (All-take _ n tickets a, take-IsSorted n tickets s)

drop-IsSorted : (n : ℕ) (tickets : List Ticket) → IsSorted tickets → IsSorted (drop n tickets)
drop-IsSorted zero tickets s = s
drop-IsSorted (suc n) [] s = tt
drop-IsSorted (suc n) (t ∷ tickets) (a, s) = drop-IsSorted n tickets s

pub paged-part :
    (P : List Ticket → Type 0)
    → ((n : ℕ) (tickets : List Ticket) → P tickets → P (take n tickets))
    → ((n : ℕ) (tickets : List Ticket) → P tickets → P (drop n tickets))
    → (offset limit : ℕ) (tickets out : List Ticket) → paged offset limit tickets ≡ done out
    → P tickets
    → P out
unfolding paged
paged-part P on_take on_drop offset limit tickets out e h =
    let rest = drop offset tickets in
    elim (Bool-cases (not (offset == 0) && leb (length tickets) offset)) [
      | inl beyond ↦ cc (rw beyond at e)
      | inr within ↦ elim (Bool-cases (not (limit == 0) && ltb limit (length rest))) [
        | inl cut ↦
            let same : take limit rest ≡ out = cc (rw (within, cut) at e) in
            subst P same (on_take limit rest (on_drop offset tickets h))
        | inr whole ↦
            let same : rest ≡ out = cc (rw (within, whole) at e) in
            subst P same (on_drop offset tickets h)
      ]
    ]

keep_if-All :
    (m : List Ticket) (t : Ticket) (o : Outcome (Unit {0})) (rest out : List Ticket)
    → can_start m t ≡ o
    → keep_if t o rest ≡ done out
    → All (λ u. can_start m u ≡ done tt) rest
    → All (λ u. can_start m u ≡ done tt) out
keep_if-All m t (done u) rest out e h a =
    let same : t ∷ rest ≡ out = cc h in subst (All (λ u. can_start m u ≡ done tt)) same (e, a)
keep_if-All m t (refused code) rest out e h a =
    let same : rest ≡ out = cc h in subst (All (λ u. can_start m u ≡ done tt)) same a
keep_if-All m t panicked rest out e h a = cc h
keep_if-All m t out_of_fuel rest out e h a = cc h

startable-All :
    (m tickets out : List Ticket)
    → startable m tickets ≡ done out
    → All (λ t. can_start m t ≡ done tt) out
unfolding startable
startable-All m [] out h =
    let same : [] ≡ out = cc h in subst (All (λ t. can_start m t ≡ done tt)) same tt
startable-All m (t ∷ tickets) out h =
    let (rest, e, h1) = >>=-eq-done (startable m tickets) _ h in
    keep_if-All m t (can_start m t) rest out refl h1 (startable-All m tickets rest e)

-- Every ticket that `Ready` returns can be started, and the tickets come by priority.
pub ready-IsSorted :
    (m : List Ticket) (offset limit : ℤ) (out : List Ticket)
    → ready m offset limit ≡ done out
    → All (λ t. can_start m t ≡ done tt) out × IsSorted out
unfolding ready
ready-IsSorted m offset limit out h =
    let (o, _, h1) = >>=-eq-done (natural _ offset) _ h in
    let (l, _, h2) = >>=-eq-done (natural _ limit) _ h1 in
    let (tickets, e, h3) = >>=-eq-done (startable m m) _ h2 in
    let Can = λ (t : Ticket). can_start m t ≡ done tt in
    (
      paged-part (All Can) (All-take Can) (All-drop Can) o l (sort tickets) out h3
          (sort-All Can tickets (startable-All m m tickets e)),
      paged-part IsSorted take-IsSorted drop-IsSorted o l (sort tickets) out h3
          (sort-IsSorted tickets),
    )
