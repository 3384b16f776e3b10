-- ===== src/Model/Selection.antt =====
-- What `LS` returns in the states that commands lead to.
use agent_task.Prelude.{
  ℕ, ◌≡◌, ◌⊎◌, refl, sym, ap, ◌∙◌, Bool, true, Option, some, List, [], ◌∷◌, All, All-take, All-drop,
  inl, inr, arith, Bool-cases, ◌==◌, if◌then◌else◌,
}
use agent_task.Text.{Bytes, equal, ℤ, pos, negsuc}
use agent_task.Model.{
  done, refused, ErrCode, Ticket, Status, TicketType, bug, feature, task, epic, chore,
  ticket_not_found, open_status, in_progress, closed, lookup_or, to_status, to_type, to_priority,
}
use agent_task.Model.Inversion.{>>=-eq-done}
use agent_task.Model.Reachable.{Reachable}
use agent_task.Model.Totality.{Answers, Answers-done, Answers-bind, Answers-if}
use agent_task.Model.Lists.{paged-part}
use agent_task.Model.Readiness.{
  IsHere, All-IsHere, Reachable-IsDistinct, natural-Answers, paged-Answers, Answers-cases,
}
use agent_task.Model.Views.{
  UserLsInput, status_filter, type_filter, priority_filter, natural, passes_status, passes_priority,
  passes_type, same_status, type_code, is_listed, listed, ls, show,
}

same_status-eq : (a b : Status) → same_status a b ≡ true → a ≡ b
same_status-eq open_status open_status h = refl
same_status-eq open_status in_progress h = cc h
same_status-eq open_status closed h = cc h
same_status-eq in_progress open_status h = cc h
same_status-eq in_progress in_progress h = refl
same_status-eq in_progress closed h = cc h
same_status-eq closed open_status h = cc h
same_status-eq closed in_progress h = cc h
same_status-eq closed closed h = refl

is_listed-passes :
    (s : Option Status) (p : Option ℕ) (k : Option TicketType) (t : Ticket)
    → is_listed s p k t ≡ true
    → (passes_status s t ≡ true) × (passes_priority p t ≡ true) × (passes_type k t ≡ true)
is_listed-passes s p k t h = elim (Bool-cases (passes_status s t)) [
  | inl by_status ↦ elim (Bool-cases (passes_priority p t)) [
    | inl by_priority ↦ elim (Bool-cases (passes_type k t)) [
      | inl by_type ↦ (by_status, by_priority, by_type)
      | inr other ↦ cc (rw (by_status, by_priority, other) at h)
    ]
    | inr other ↦ cc (rw (by_status, other) at h)
  ]
  | inr other ↦ cc (rw other at h)
]

listed-All :
    (P : Ticket → Type 0) (test : Ticket → Bool) (m : List Ticket)
    → All P m
    → All (λ t. P t × (test t ≡ true)) (listed test m)
unfolding listed
listed-All P test [] a = tt
listed-All P test (t ∷ m) (p, a) = elim (Bool-cases (test t)) [
  | inl in_it ↦ rw in_it ((p, in_it), listed-All P test m a)
  | inr not_in_it ↦ rw not_in_it (listed-All P test m a)
]

-- The words of the filters, read as a status, a priority and a type, are those of the ticket.
pub record IsAsked (user : UserLsInput) (t : Ticket) : Type 0 where
  pub status : (equal user.status [] ≡ true) ⊎ (to_status user.status ≡ done t.status)
  pub priority : (user.priority ≡ pos 0) ⊎ (user.priority ≡ pos t.priority)
  pub kind : (equal user.ticket_type [] ≡ true) ⊎ (to_type user.ticket_type ≡ done t.ticket_type)

status_filter-passes :
    (word : Bytes) (s : Option Status) (t : Ticket)
    → status_filter word ≡ done s
    → passes_status s t ≡ true
    → (equal word [] ≡ true) ⊎ (to_status word ≡ done t.status)
unfolding status_filter
status_filter-passes word s t h p = elim (Bool-cases (equal word [])) [
  | inl empty ↦ inl empty
  | inr given ↦
      let (v, e, h1) = >>=-eq-done (to_status word) _ (rw given at h) in
      let is_it : some v ≡ s = cc h1 in
      let q : passes_status (some v) t ≡ true = ap (λ o. passes_status o t) is_it ∙ p in
      inr (e ∙ ap done (sym (same_status-eq t.status v q)))
]

priority_filter-passes :
    (z : ℤ) (o : Option ℕ) (t : Ticket)
    → priority_filter z ≡ done o
    → passes_priority o t ≡ true
    → (z ≡ pos 0) ⊎ (z ≡ pos t.priority)
unfolding priority_filter to_priority
priority_filter-passes (negsuc n) o t h p = cc h
priority_filter-passes (pos n) o t h p = elim (Bool-cases (n == 0)) [
  | inl zero_given ↦ let e : n ≡ 0 = ground arith in inl (ap pos e)
  | inr given ↦
      let (v, e, h1) = >>=-eq-done (to_priority (pos n)) _ (rw given at h) in
      let is_it : some v ≡ o = cc h1 in
      let q : passes_priority (some v) t ≡ true = ap (λ o. passes_priority o t) is_it ∙ p in
      let same : n ≡ v = ground (arith, e) in
      let at : n ≡ t.priority = ground (arith, q, same) in inr (ap pos at)
]

type_of : ℕ → TicketType
type_of n =
    if n == 0
    then bug
    else if n == 1
    then feature
    else if n == 2
    then task
    else if n == 3
    then epic
    else chore

type_of-type_code : (k : TicketType) → type_of (type_code k) ≡ k
unfolding type_of
type_of-type_code bug = refl
type_of-type_code feature = refl
type_of-type_code task = refl
type_of-type_code epic = refl
type_of-type_code chore = refl

type_filter-passes :
    (word : Bytes) (k : Option TicketType) (t : Ticket)
    → type_filter word ≡ done k
    → passes_type k t ≡ true
    → (equal word [] ≡ true) ⊎ (to_type word ≡ done t.ticket_type)
unfolding type_filter
type_filter-passes word k t h p = elim (Bool-cases (equal word [])) [
  | inl empty ↦ inl empty
  | inr given ↦
      let (v, e, h1) = >>=-eq-done (to_type word) _ (rw given at h) in
      let is_it : some v ≡ k = cc h1 in
      let q : passes_type (some v) t ≡ true = ap (λ o. passes_type o t) is_it ∙ p in
      let same : type_code t.ticket_type ≡ type_code v = ground arith in
      let kind : t.ticket_type ≡ v =
        sym (type_of-type_code t.ticket_type) ∙ ap type_of same ∙ type_of-type_code v in
      inr (e ∙ ap done (sym kind))
]

-- A ticket is selected if `Show` finds it and the filters ask for it.
pub record IsSelected (m : List Ticket) (user : UserLsInput) (t : Ticket) : Type 0 where
  pub shown : show m t.id ≡ done t
  pub asked : IsAsked user t

selected :
    (m : List Ticket) (user : UserLsInput) (s : Option Status) (p : Option ℕ)
    (k : Option TicketType)
    → status_filter user.status ≡ done s
    → priority_filter user.priority ≡ done p
    → type_filter user.ticket_type ≡ done k
    → (tickets : List Ticket) → All (λ t. IsHere m t × (is_listed s p k t ≡ true)) tickets
    → All (IsSelected m user) tickets
selected m user s p k hs hp hk [] a = tt
selected m user s p k hs hp hk (t ∷ tickets) ((here, passes), a) =
    let (ps, pp, pk) = is_listed-passes s p k t passes in
    (
      record {
        shown = unfold show in ap (lookup_or ticket_not_found) here;
        asked = record {
          status = status_filter-passes user.status s t hs ps;
          priority = priority_filter-passes user.priority p t hp pp;
          kind = type_filter-passes user.ticket_type k t hk pk;
        };
      },
      selected m user s p k hs hp hk tickets a,
    )

ls-All :
    (parse_time : Bytes → Option ℕ) (m out : List Ticket) (user : UserLsInput)
    → Reachable parse_time m
    → ls m user ≡ done out
    → All (IsSelected m user) out
unfolding ls
ls-All parse_time m out user r h =
    let (s, hs, h1) = >>=-eq-done (status_filter user.status) _ h in
    let (p, hp, h2) = >>=-eq-done (priority_filter user.priority) _ h1 in
    let (k, hk, h3) = >>=-eq-done (type_filter user.ticket_type) _ h2 in
    let (offset, _, h4) = >>=-eq-done (natural _ user.offset) _ h3 in
    let (limit, _, h5) = >>=-eq-done (natural _ user.limit) _ h4 in
    paged-part (All (IsSelected m user)) (All-take _) (All-drop _) offset limit
      (listed (is_listed s p k) m) out h5
      (selected m user s p k hs hp hk (listed (is_listed s p k) m) (
        listed-All (IsHere m) (is_listed s p k) m
          (All-IsHere m (Reachable-IsDistinct parse_time m r))))

status_filter-Answers : (word : Bytes) → Answers (status_filter word)
unfolding status_filter to_status
status_filter-Answers word =
    Answers-if (equal word []) _ _ (λ _. Answers-done)
      (λ _. Answers-bind (to_status word) _ (record { holds = ground arith }) (λ _ _. Answers-done))

type_filter-Answers : (word : Bytes) → Answers (type_filter word)
unfolding type_filter to_type
type_filter-Answers word =
    Answers-if (equal word []) _ _ (λ _. Answers-done)
      (λ _. Answers-bind (to_type word) _ (record { holds = ground arith }) (λ _ _. Answers-done))

priority_filter-Answers : (z : ℤ) → Answers (priority_filter z)
unfolding priority_filter to_priority
priority_filter-Answers (negsuc n) = record { holds = refl }
priority_filter-Answers (pos n) =
    Answers-if (n == 0) _ _ (λ _. Answers-done)
      (λ _.
        Answers-bind (to_priority (pos n)) _ (record { holds = ground arith })
          (λ _ _. Answers-done))

ls-Answers : (m : List Ticket) (user : UserLsInput) → Answers (ls m user)
unfolding ls
ls-Answers m user =
    Answers-bind (status_filter user.status) _ (status_filter-Answers user.status) (λ s _.
      Answers-bind (priority_filter user.priority) _ (priority_filter-Answers user.priority) (λ p _.
        Answers-bind (type_filter user.ticket_type) _ (type_filter-Answers user.ticket_type) (λ k _.
          Answers-bind (natural _ user.offset) _ (natural-Answers _ user.offset) (λ o _.
            Answers-bind (natural _ user.limit) _ (natural-Answers _ user.limit)
              (λ l _. paged-Answers o l (listed (is_listed s p k) m))))))

-- In a state that commands lead to, `LS` returns tickets or an error. Every ticket that it returns is
-- the one that `Show` returns for its id, and has the status, the priority and the type of the filters
-- that are given.
pub ls_lem :
    (parse_time : Bytes → Option ℕ) (m : List Ticket) (user : UserLsInput)
    → Reachable parse_time m
    → ((out : List Ticket) × (ls m user ≡ done out) × All (IsSelected m user) out)
      ⊎ ((code : ErrCode) × (ls m user ≡ refused code))
ls_lem parse_time m user r = elim (Answers-cases (ls m user) (ls-Answers m user)) [
  | inl (out, e) ↦ inl (out, e, ls-All parse_time m out user r e)
  | inr (code, e) ↦ inr (code, e)
]
