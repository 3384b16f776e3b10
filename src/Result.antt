-- ===== src/Result.antt =====
-- Errors as values: the sentinel errors of internal/ticket/errors.go, ticket.go, cache.go and of the
-- commands under internal/cli. A wrapped error (`%w`) is the error that it wraps; message texts are
-- not modelled.
pub mod Ensures
use agent_task.Prelude.{◌≡◌, refl, ◌⊎◌, inl, inr}

pub data Error : Type 0 where
  id_generation_failed ticket_file_exists ticket_not_found id_required ticket_not_open : Error
  ticket_not_started ticket_already_closed ticket_not_in_progress ticket_not_closed : Error
  ticket_already_open status_not_found field_insert_failed closed_without_timestamp : Error
  closed_timestamp_on_non_closed blocker_id_required not_blocked_by already_blocked_by : Error
  cannot_block_self blocked_by_not_found missing_schema_version : Error
  unsupported_schema_version parent_not_found parent_closed parent_not_started : Error
  has_open_children missing_field invalid_field_value no_frontmatter unclosed_frontmatter : Error
  frontmatter_too_long no_title offset_out_of_bounds read_failed scan_failed write_failed : Error
  id_too_long created_too_long closed_too_long assignee_too_long parent_too_long : Error
  title_too_long path_too_long too_many_blockers blocker_id_too_long entry_too_large : Error
  invalid_ticket_type invalid_ticket_prio : Error
  cache_not_found cache_corrupt invalid_magic version_mismatch file_too_small : Error
  file_too_large filename_too_long too_many_entries negative_mtime : Error
  lock_failed blocker_not_found open_blocker ancestor_cycle blocker_cycle : Error

pub data Result {ℓ} (V : Type ℓ) : Type ℓ where
  err : Error → Result V
  ok : V → Result V

infixl 5 ◌>>=◌
abbrev pub ◌>>=◌ {ℓ κ} : {V : Type ℓ} {W : Type κ} → Result V → (V → Result W) → Result W
err e >>= next = err e
ok v >>= next = next v

pub Result-cases {ℓ} :
    {V : Type ℓ} (r : Result V) → ((v : V) × (r ≡ ok v)) ⊎ ((e : Error) × (r ≡ err e))
Result-cases (ok v) = inl (v, refl)
Result-cases (err e) = inr (e, refl)

pub >>=-eq-ok {ℓ κ} :
    {V : Type ℓ} {W : Type κ} {w : W} (first : Result V) (next : V → Result W)
    → (first >>= next) ≡ ok w
    → (v : V) × (first ≡ ok v) × (next v ≡ ok w)
>>=-eq-ok (err e) next done = cc
>>=-eq-ok (ok v) next done = (v, refl, done)
