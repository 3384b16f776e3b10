-- ===== src/Model/Views.antt =====
-- The commands of spec.go that only read: `Show`, `IDs`, `LS` and `Ready`.
use agent_task.Prelude.{
  ℕ, Bool, true, false, not, ◌&&◌, ◌||◌, Option, none, some, List, [], ◌∷◌, ltb, leb, ◌==◌,
  if◌then◌else◌, take, drop, length,
}
use agent_task.Text.{Bytes, equal, ℤ, pos, negsuc}
use agent_task.Model.{
  Outcome, done, refused, panicked, out_of_fuel, ◌>>=◌, Status, TicketType, bug, feature, task,
  epic, chore, Ticket, ErrCode, is_open, is_in_progress, is_closed, find, lookup_or, to_type,
  to_priority, to_status, ticket_not_found, invalid_offset, invalid_limit, offset_out_of_bounds,
}
use agent_task.Model.Graph.{can_start}

unfoldable pub show : List Ticket → Bytes → Outcome Ticket
show m id = lookup_or ticket_not_found (find m id)

unfoldable pub ids : List Ticket → List Bytes
ids [] = []
ids (t ∷ m) = t.id ∷ ids m

-- `UserLSInput`.
pub record UserLsInput : Type 0 where
  pub status : Bytes
  pub priority : ℤ
  pub ticket_type : Bytes
  pub offset : ℤ
  pub limit : ℤ

abbrev pub same_status : Status → Status → Bool
same_status a b =
    is_open a && is_open b || is_in_progress a && is_in_progress b || is_closed a && is_closed b

abbrev pub type_code : TicketType → ℕ
type_code bug = 0
type_code feature = 1
type_code task = 2
type_code epic = 3
type_code chore = 4

-- The filters; an empty word or the priority 0 stands for all.
unfoldable pub status_filter : Bytes → Outcome (Option Status)
status_filter word = if equal word [] then done none else to_status word >>= λ s. done (some s)

unfoldable pub type_filter : Bytes → Outcome (Option TicketType)
type_filter word = if equal word [] then done none else to_type word >>= λ t. done (some t)

unfoldable pub priority_filter : ℤ → Outcome (Option ℕ)
priority_filter (negsuc n) = to_priority (negsuc n) >>= λ p. done (some p)
priority_filter (pos n) = if n == 0 then done none else to_priority (pos n) >>= λ p. done (some p)

abbrev pub natural : ErrCode → ℤ → Outcome ℕ
natural code (pos n) = done n
natural code (negsuc n) = refused code

abbrev pub passes_status : Option Status → Ticket → Bool
passes_status none t = true
passes_status (some s) t = same_status t.status s

abbrev pub passes_priority : Option ℕ → Ticket → Bool
passes_priority none t = true
passes_priority (some p) t = t.priority == p

abbrev pub passes_type : Option TicketType → Ticket → Bool
passes_type none t = true
passes_type (some k) t = type_code t.ticket_type == type_code k

abbrev pub is_listed : Option Status → Option ℕ → Option TicketType → Ticket → Bool
is_listed s p k t =
    if not (passes_status s t)
    then false
    else if not (passes_priority p t)
    then false
    else if not (passes_type k t)
    then false
    else true

-- The loop of `LS`.
unfoldable pub listed : (Ticket → Bool) → List Ticket → List Ticket
listed test [] = []
listed test (t ∷ m) = let rest = listed test m in if test t then t ∷ rest else rest

-- The end of `LS` and of `Ready`.
unfoldable pub paged : ℕ → ℕ → List Ticket → Outcome (List Ticket)
paged offset limit tickets =
    let rest = drop offset tickets in
    if not (offset == 0) && leb (length tickets) offset
    then refused offset_out_of_bounds
    else if not (limit == 0) && ltb limit (length rest)
    then done (take limit rest)
    else done rest

unfoldable pub ls : List Ticket → UserLsInput → Outcome (List Ticket)
ls m user = do
  s ← status_filter user.status
  p ← priority_filter user.priority
  k ← type_filter user.ticket_type
  offset ← natural invalid_offset user.offset
  limit ← natural invalid_limit user.limit
  paged offset limit (listed (is_listed s p k) m)

-- The loop of `Ready`: a ticket that cannot be started is passed over.
abbrev pub keep_if : Ticket → Outcome (Unit {0}) → List Ticket → Outcome (List Ticket)
keep_if t (done u) ready = done (t ∷ ready)
keep_if t (refused code) ready = done ready
keep_if t panicked ready = panicked
keep_if t out_of_fuel ready = out_of_fuel

unfoldable pub startable : List Ticket → List Ticket → Outcome (List Ticket)
startable m [] = done []
startable m (t ∷ tickets) = startable m tickets >>= λ ready. keep_if t (can_start m t) ready

-- `slices.SortStableFunc` by priority: a ticket goes before the first one behind it that is not above it.
unfoldable pub insert : Ticket → List Ticket → List Ticket
insert t [] = t ∷ []
insert t (u ∷ tickets) =
    let rest = insert t tickets in if leb t.priority u.priority then t ∷ u ∷ tickets else u ∷ rest

unfoldable pub sort : List Ticket → List Ticket
unfolding insert
sort [] = []
sort (t ∷ tickets) = insert t (sort tickets)

unfoldable pub ready : List Ticket → ℤ → ℤ → Outcome (List Ticket)
unfolding sort
ready m offset limit = do
  o ← natural invalid_offset offset
  l ← natural invalid_limit limit
  tickets ← startable m m
  paged o l (sort tickets)
