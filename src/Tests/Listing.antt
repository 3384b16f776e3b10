-- ===== src/Tests/Listing.antt =====
-- Pages of a short listing.
use agent_task.Prelude.{
  refl, arith, ℕ, ◌≡◌, ◌⊎◌, true, false, not, ◌&&◌, none, some, List, [], ◌∷◌, ◌==◌, leb, length,
  if◌then◌else◌,
}
use agent_task.Result.{Result, ok, err, missing_field, offset_out_of_bounds}
use agent_task.Text.{equal, contains, Bytes, codes, pos}
use agent_task.Ticket.{Summary, is_valid_status, is_valid_type}
use agent_task.Listing.{
  ListTicketsOptions, ticket_summary_matches, filter_ticket_results, IndexEntry, FilterEntriesOpts,
  entry_matches, filter_entries,
}
use agent_task.Listing.Agreement.{entries_opts, index_entry, entry_matches-index_entry}
use agent_task.Listing.Pages.{keep, page}
use agent_task.Listing.Entries.{matching, filter_entries_lem}
use agent_task.Listing.Results.{summaries, failures, filter_ticket_results_lem}

abbrev listed : Bytes → ℕ → Summary
listed id priority = record {
  schema_version = pos 1;
  id = id;
  status = codes "open";
  blocked_by = [];
  parent = [];
  created = codes "t";
  ticket_type = codes "task";
  priority = pos priority;
  assignee = [];
  closed = [];
  title = codes "A title";
  path = id;
}

abbrev results : List (Result Summary)
results =
    ok (listed (codes "a") 1)
    ∷ err missing_field
    ∷ ok (listed (codes "b") 2)
    ∷ ok (listed (codes "c") 1)
    ∷ []

abbrev options : ListTicketsOptions
options = record {
  status = [];
  priority = 1;
  ticket_type = [];
  parent = [];
  roots_only = false;
  limit = 5;
  offset = 1;
}

filter_ticket_results_lem_example :
    (let matched = keep (λ s. ticket_summary_matches s options) (summaries results) in
      let beyond = not (options.offset == 0) && leb (length matched) options.offset in
      ((beyond ≡ true) × (filter_ticket_results results options ≡ err offset_out_of_bounds))
      ⊎ ((beyond ≡ false)
          × ((out : List (Result Summary)) × (filter_ticket_results results options ≡ ok out)
              × (summaries out ≡ page options.limit options.offset matched)
              × (failures out ≡ failures results))))
filter_ticket_results_lem_example = filter_ticket_results_lem results options

abbrev entry : ℕ → IndexEntry
entry priority = record { status = 0; priority = priority; ticket_type = 2; parent = [] }

abbrev entries : List IndexEntry
entries = entry 1 ∷ entry 2 ∷ entry 1 ∷ []

abbrev entry_options : FilterEntriesOpts
entry_options = record {
  status = none;
  priority = 1;
  ticket_type = none;
  parent = [];
  roots_only = false;
  limit = 5;
  offset = 1;
}

filter_entries_lem_example : filter_entries entries entry_options ≡ (
    let matched = matching (entry_matches entry_options) 0 entries in
    if not (entry_options.offset == 0) && leb (length matched) entry_options.offset
    then none
    else some (page entry_options.limit entry_options.offset matched))
filter_entries_lem_example = filter_entries_lem entries entry_options

abbrev child : Summary
child = record (listed (codes "d") 2) { parent = codes "a" }

abbrev child_options : ListTicketsOptions
child_options = record options {
  status = codes "open";
  ticket_type = codes "task";
  parent = codes "a";
}

valid_status : is_valid_status (codes "open") ≡ true
unfolding is_valid_status contains equal
valid_status = refl

valid_type : is_valid_type (codes "task") ≡ true
unfolding is_valid_type contains equal
valid_type = refl

entry_matches-index_entry_example :
    entry_matches (entries_opts child_options) (index_entry 2 child)
    ≡ ticket_summary_matches child child_options
entry_matches-index_entry_example =
    entry_matches-index_entry child child_options 2 valid_status valid_type refl (ground arith)
      (ground arith) (λ _. valid_status) (λ _. valid_type)
