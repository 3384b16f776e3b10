-- ===== src/Tests/Cache.antt =====
-- One ticket's record in the cache.
use agent_task.Prelude.{◌≡◌, refl, true, some, [], ◌∷◌, arith}
use agent_task.Result.{ok}
use agent_task.Text.{codes, equal, contains, pos}
use agent_task.Ticket.{Summary, is_valid_status, is_valid_type, is_valid_priority}
use agent_task.Cache.{
  RawCacheEntry, summary_data, write_string1, write_string2, write_strings, check_blocker_lengths,
  encode_summary_data, priority_to_uint8, cache_entry, read_data_entry, status_string_to_byte,
  type_string_to_byte,
}
use agent_task.Cache.RoundTrip.{read_data_entry-cache_entry}

abbrev summary : Summary
summary = record {
  schema_version = pos 1;
  id = codes "aaa";
  status = codes "in_progress";
  blocked_by = codes "bbb" ∷ codes "ccc" ∷ [];
  parent = codes "ddd";
  created = codes "t";
  ticket_type = codes "chore";
  priority = pos 2;
  assignee = [];
  closed = [];
  title = codes "A title";
  path = codes "aaa.md";
}

abbrev entry : RawCacheEntry
entry = record {
  filename = codes "aaa.md";
  mtime = pos 7;
  status = 1;
  priority = 2;
  ticket_type = 4;
  parent = codes "ddd";
  bytes = summary_data summary;
}

started : is_valid_status summary.status ≡ true
unfolding is_valid_status contains equal
started = refl

stored : cache_entry (codes "aaa.md") (pos 7) summary ≡ ok entry
unfolding cache_entry encode_summary_data summary_data check_blocker_lengths write_string1
    write_string2 write_strings priority_to_uint8 status_string_to_byte type_string_to_byte equal
    is_valid_type is_valid_priority contains
stored = refl

read_data_entry-cache_entry_example : read_data_entry entry ≡ some summary
read_data_entry-cache_entry_example =
    read_data_entry-cache_entry (codes "aaa.md") (pos 7) summary entry 1 started refl (ground arith)
      stored
