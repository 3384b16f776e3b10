-- ===== src/Model.antt =====
-- internal/testutil/spec/spec.go: the reference model of the tracker, an abstract state machine over
-- tickets in memory. The map of tickets and the slice of ids in creation order are one list: the
-- tickets in creation order, looked up by id. Context pairs of errors are not modelled. Times are
-- numbers, and reading one (`time.Parse` at RFC 3339) is a parameter; a zero time or an unset one is `none`.
pub mod Graph
pub mod Commands
pub mod Invariant
pub mod Inversion
pub mod Lookup
pub mod Changes
pub mod Dates
pub mod Adding
pub mod Keeps
pub mod Creation
pub mod Reachable
pub mod Chains
pub mod Search
pub mod Acyclic
pub mod Writes
pub mod Histories
pub mod Fuel
pub mod Totality
pub mod Responses
pub mod Detection
pub mod Views
pub mod Lists
pub mod Distinct
pub mod Readiness
pub mod Completeness
pub mod Selection
use agent_task.Prelude.{
  ℕ, zero, suc, ◌≡◌, Bool, true, false, not, ◌&&◌, ◌||◌, Option, none, some, List, [], ◌∷◌, ◌++◌,
  ltb, leb, if◌then◌else◌,
}
use agent_task.Text.{Bytes, codes, equal, ℤ, pos, negsuc}

pub data Status : Type 0 where
  open_status in_progress closed : Status

pub data TicketType : Type 0 where
  bug feature task epic chore : TicketType

pub data ErrCode : Type 0 where
  id_required ticket_not_found ticket_already_exists title_required invalid_type : ErrCode
  invalid_priority invalid_status invalid_timestamp blocker_id_required blocker_not_found : ErrCode
  cant_block_self already_blocked not_blocked blocker_cycle parent_not_found : ErrCode
  parent_already_closed parent_not_started has_open_children has_open_blockers : ErrCode
  ancestor_not_ready cant_start_not_open cant_close_open cant_close_closed : ErrCode
  cant_reopen_open cant_reopen_in_progress closed_before_created started_before_created : ErrCode
  invalid_offset invalid_limit offset_out_of_bounds duplicate_blocker ticket_closed : ErrCode
  claimed_by_required content_required empty_tag duplicate_tag : ErrCode

-- A call returns, or returns an error, or panics (a nil ticket, or one of the calls of `panic`), or
-- has used up the fuel of a search.
pub data Outcome {ℓ} (A : Type ℓ) : Type ℓ where
  done : A → Outcome A
  refused : ErrCode → Outcome A
  panicked : Outcome A
  out_of_fuel : Outcome A

infixl 5 ◌>>=◌
abbrev pub ◌>>=◌ {ℓ κ} : {A : Type ℓ} {B : Type κ} → Outcome A → (A → Outcome B) → Outcome B
done a >>= k = k a
refused code >>= k = refused code
panicked >>= k = panicked
out_of_fuel >>= k = out_of_fuel

abbrev pub refuse_if : Bool → ErrCode → Outcome (Unit {0})
refuse_if true code = refused code
refuse_if false code = done tt

-- `default: panic(…)` and the checks that panic.
abbrev pub panic_if : Bool → Outcome (Unit {0})
panic_if true = panicked
panic_if false = done tt

pub record Ticket : Type 0 where
  pub id : Bytes
  pub created_at : ℕ
  pub title : Bytes
  pub content : Bytes
  pub ticket_type : TicketType
  pub priority : ℕ
  pub status : Status
  pub parent_id : Bytes
  pub blocked_by : List Bytes
  pub tags : List Bytes
  pub claimed_by : Bytes
  pub claimed_at : Option ℕ
  pub closed_at : Option ℕ

abbrev pub is_open : Status → Bool
is_open open_status = true
is_open in_progress = false
is_open closed = false

abbrev pub is_in_progress : Status → Bool
is_in_progress open_status = false
is_in_progress in_progress = true
is_in_progress closed = false

abbrev pub is_closed : Status → Bool
is_closed open_status = false
is_closed in_progress = false
is_closed closed = true

-- `m.tickets[id]`.
unfoldable pub find : List Ticket → Bytes → Option Ticket
find [] id = none
find (t ∷ m) id = let rest = find m id in if equal t.id id then some t else rest

abbrev pub is_some : Option Ticket → Bool
is_some none = false
is_some (some t) = true

-- Writes to the fields of `m.tickets[id]`.
unfoldable pub modify : List Ticket → Bytes → (Ticket → Ticket) → List Ticket
modify [] id f = []
modify (t ∷ m) id f = let rest = modify m id f in if equal t.id id then f t ∷ m else t ∷ rest

-- A field of `m.tickets[id]` is read: a nil pointer panics.
abbrev pub deref : Option Ticket → Outcome Ticket
deref none = panicked
deref (some t) = done t

-- `tk, ok := m.tickets[id]`, and an error where there is none.
abbrev pub lookup_or : ErrCode → Option Ticket → Outcome Ticket
lookup_or code none = refused code
lookup_or code (some t) = done t

-- The tickets that an input may name by their words.
unfoldable pub to_type : Bytes → Outcome TicketType
to_type t =
    if equal t (codes "bug")
    then done bug
    else if equal t (codes "feature")
    then done feature
    else if equal t (codes "task")
    then done task
    else if equal t (codes "epic")
    then done epic
    else if equal t (codes "chore")
    then done chore
    else refused invalid_type

unfoldable pub to_priority : ℤ → Outcome ℕ
to_priority (negsuc n) = refused invalid_priority
to_priority (pos p) = if ltb p 1 || ltb 4 p then refused invalid_priority else done p

unfoldable pub to_status : Bytes → Outcome Status
to_status s =
    if equal s (codes "open")
    then done open_status
    else if equal s (codes "in_progress")
    then done in_progress
    else if equal s (codes "closed")
    then done closed
    else refused invalid_status

-- `toISO8601`, from what `time.Parse` returns.
abbrev pub to_time : Option ℕ → Outcome ℕ
to_time none = refused invalid_timestamp
to_time (some t) = done t
