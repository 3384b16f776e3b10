-- ===== src/Listing.antt =====
-- internal/ticket: the filter and the pages of a listing, twice: `filterTicketResults` of ticket.go over
-- parsed tickets, and `FilterEntriesWithOpts` of cache.go over the index of the cache. A negative
-- limit or offset does what zero does in both, so they are natural numbers here.
pub mod Pages
pub mod Stored
pub mod Entries
pub mod Results
pub mod Agreement
use agent_task.Prelude.{
  ℕ, zero, suc, ◌+◌, ◌-◌, Bool, true, false, not, ◌&&◌, ◌||◌, Option, none, some, List, [], ◌∷◌,
  map, ltb, leb, ◌==◌, if◌then◌else◌, take, drop, length,
}
use agent_task.Result.{Error, Result, ok, err, offset_out_of_bounds}
use agent_task.Text.{Bytes, codes, equal, ℤ, pos, negsuc}
use agent_task.Ticket.{Summary, status_in_progress, status_closed}

-- `ListTicketsOptions`.
pub record ListTicketsOptions : Type 0 where
  pub status : Bytes
  pub priority : ℕ
  pub ticket_type : Bytes
  pub parent : Bytes
  pub roots_only : Bool
  pub limit : ℕ
  pub offset : ℕ

abbrev pub equal_int : ℤ → ℕ → Bool
equal_int (pos p) n = p == n
equal_int (negsuc p) n = false

-- `ticketSummaryMatches`.
unfoldable pub ticket_summary_matches : Summary → ListTicketsOptions → Bool
ticket_summary_matches s o =
    if not (equal o.status []) && not (equal s.status o.status)
    then false
    else if not (o.priority == 0) && not (equal_int s.priority o.priority)
    then false
    else if not (equal o.ticket_type []) && not (equal s.ticket_type o.ticket_type)
    then false
    else if not (equal o.parent []) && not (equal s.parent o.parent)
    then false
    else if o.roots_only && not (equal s.parent [])
    then false
    else true

-- The variables of the loop of `filterTicketResults`.
pub record Counters : Type 0 where
  pub limit_reached : Bool
  pub match_count : ℕ
  pub emitted : ℕ

-- The counters behind a ticket that matches, and whether it is emitted.
unfoldable pub count_match : ℕ → ℕ → Counters → Counters × Bool
count_match limit offset c =
    if ltb c.match_count offset
    then (record c { match_count = c.match_count + 1 }, false)
    else if c.limit_reached
    then (record c { match_count = c.match_count + 1 }, false)
    else (
      record {
        limit_reached = not (limit == 0) && leb limit (c.emitted + 1);
        match_count = c.match_count + 1;
        emitted = c.emitted + 1;
      },
      true,
    )

module _ (matches : Summary → Bool) (limit offset : ℕ) where
  -- What is appended to `filtered`, and the count of matches in the end. Parse errors are kept.
  unfoldable pub filter_loop : List (Result Summary) → Counters → List (Result Summary) × ℕ
  filter_loop [] c = ([], c.match_count)
  filter_loop (err e ∷ results) c = let (out, count) = filter_loop results c in (err e ∷ out, count)
  filter_loop (ok s ∷ results) c =
      let (next, emit) = if matches s then count_match limit offset c else (c, false) in
      let (out, count) = filter_loop results next in (if emit then ok s ∷ out else out, count)

abbrev pub fresh_counters : Counters
fresh_counters = record { limit_reached = false; match_count = 0; emitted = 0 }

abbrev pub bounded : ℕ → List (Result Summary) × ℕ → Result (List (Result Summary))
bounded offset (out, count) =
    if not (offset == 0) && leb count offset then err offset_out_of_bounds else ok out

unfoldable pub filter_ticket_results :
    List (Result Summary) → ListTicketsOptions → Result (List (Result Summary))
filter_ticket_results results o =
    bounded o.offset
      (filter_loop (λ s. ticket_summary_matches s o) o.limit o.offset results fresh_counters)

-- The part of an index entry that the filter reads; `parent` is the text up to the first zero byte.
pub record IndexEntry : Type 0 where
  pub status : ℕ
  pub priority : ℕ
  pub ticket_type : ℕ
  pub parent : Bytes

-- `FilterEntriesOpts`; -1 for any status or type is `none`.
pub record FilterEntriesOpts : Type 0 where
  pub status : Option ℕ
  pub priority : ℕ
  pub ticket_type : Option ℕ
  pub parent : Bytes
  pub roots_only : Bool
  pub limit : ℕ
  pub offset : ℕ

abbrev pub accepts : Option ℕ → ℕ → Bool
accepts none b = true
accepts (some a) b = b == a

unfoldable pub entry_matches : FilterEntriesOpts → IndexEntry → Bool
entry_matches o e =
    if not (accepts o.status e.status)
    then false
    else if not (o.priority == 0) && not (e.priority == o.priority)
    then false
    else if not (accepts o.ticket_type e.ticket_type)
    then false
    else if not (equal o.parent []) && not (equal e.parent o.parent)
    then false
    else if o.roots_only && not (equal e.parent [])
    then false
    else true

module _ {ℓ} {A : Type ℓ} (matches : A → Bool) (limit offset : ℕ) where
  -- The loop of `FilterEntriesWithOpts` from index `i`, with `matched` matches and `found` results
  -- before: it breaks once the limit is reached.
  unfoldable pub entries_loop : List A → ℕ → ℕ → ℕ → List ℕ × ℕ
  entries_loop [] i matched found = ([], matched)
  entries_loop (e ∷ entries) i matched found =
      let passed = entries_loop entries (i + 1) matched found in
      let skipped = entries_loop entries (i + 1) (matched + 1) found in
      let (out, count) = entries_loop entries (i + 1) (matched + 1) (found + 1) in
      if not (matches e)
      then passed
      else if ltb matched offset
      then skipped
      else if not (limit == 0) && leb limit (found + 1)
      then (i ∷ [], matched + 1)
      else (i ∷ out, count)

abbrev pub bounded_entries : ℕ → List ℕ × ℕ → Option (List ℕ)
bounded_entries offset (out, count) =
    if not (offset == 0) && leb count offset then none else some out

-- `FilterEntriesWithOpts`; nil is `none`.
unfoldable pub filter_entries : List IndexEntry → FilterEntriesOpts → Option (List ℕ)
filter_entries [] o = if not (o.offset == 0) then none else some []
filter_entries (e ∷ entries) o =
    bounded_entries o.offset (entries_loop (entry_matches o) o.limit o.offset (e ∷ entries) 0 0 0)
