-- ===== src/Tests/CacheFile.antt =====
-- A cache file of two tickets, written out of order.
use agent_task.Prelude.{
  true, ◌≡◌, refl, Option, some, List, [], ◌∷◌, arith, ℕ, ◌<◌, ◌≤◌, length, if◌then◌else◌, none,
}
use agent_task.Result.{ok}
use agent_task.Text.{Bytes, codes, equal, contains, less, pos, put_le, get_le}
use agent_task.Ticket.{Summary, is_valid_status, is_valid_type, is_valid_priority}
use agent_task.Cache.{
  RawCacheEntry, summary_data, write_string1, write_string2, write_strings, check_blocker_lengths,
  encode_summary_data, priority_to_uint8, cache_entry, status_string_to_byte, type_string_to_byte,
}
use agent_task.Cache.File.{
  BinaryCache, CacheEntry, load_binary_cache, lookup, binary_search, read_raw_entry, in_bounds,
  all_in_bounds,
}
use agent_task.Cache.Writer.{
  insert_entry, sort_entries, padded, check_sizes, index_bytes, index_section, data_section, header,
  write_binary_cache_raw, to_raw_entries, write_binary_cache, find_file, find_entry,
}
use agent_task.Cache.Fields.{file_of}
use agent_task.Cache.Cached.{IsCacheable, NamesDistinct, lookup-write_binary_cache}
use agent_task.Cache.Sorted.{IsDistinct}
use agent_task.Cache.Lookup.{IsEntry, found}
use agent_task.Cache.Delete.{rewritten, delete_cache_entry}
use agent_task.Cache.Forgets.{delete_cache_entry_lem}
use agent_task.Cache.Padding.{stored_parent}
use agent_task.Listing.{FilterEntriesOpts, filter_entries, entries_loop, entry_matches}
use agent_task.Listing.Stored.{filter_cache, filter_cache-write_raw}
use agent_task.Cache.Bounds.{read_raw_entry-inside, binary_search-Returns}

abbrev summary : Bytes → Bytes → Summary
summary id parent = record {
  schema_version = pos 1;
  id = id;
  status = codes "open";
  blocked_by = [];
  parent = parent;
  created = codes "t";
  ticket_type = codes "task";
  priority = pos 2;
  assignee = [];
  closed = [];
  title = codes "A title";
  path = codes "p";
}

abbrev first : CacheEntry
first = record { mtime = pos 7; summary = summary (codes "a") [] }

abbrev second : CacheEntry
second = record { mtime = pos 9; summary = summary (codes "b") (codes "a") }

abbrev files : List (Bytes × CacheEntry)
files = (codes "b.md", second) ∷ (codes "a.md", first) ∷ []

abbrev raw : Bytes → CacheEntry → RawCacheEntry
raw filename entry = record {
  filename = filename;
  mtime = entry.mtime;
  status = 0;
  priority = 2;
  ticket_type = 2;
  parent = entry.summary.parent;
  bytes = summary_data entry.summary;
}

abbrev file : Bytes
file = file_of (raw (codes "a.md") first ∷ raw (codes "b.md") second ∷ [])

written : write_binary_cache files ≡ ok file
unfolding write_binary_cache to_raw_entries write_binary_cache_raw sort_entries insert_entry
    check_sizes index_section data_section header cache_entry encode_summary_data summary_data
    check_blocker_lengths write_string1 write_string2 write_strings priority_to_uint8
    status_string_to_byte type_string_to_byte equal less is_valid_type is_valid_priority contains
written = refl

IsCacheable-first : IsCacheable (codes "a.md") first
unfolding is_valid_status contains equal
IsCacheable-first = record {
  plain_name = (refl, (refl, (refl, (refl, tt))));
  until = ground arith;
  status = refl;
  version = 1;
  is_version = refl;
  small = ground arith;
}

IsCacheable-second : IsCacheable (codes "b.md") second
unfolding is_valid_status contains equal
IsCacheable-second = record {
  plain_name = (refl, (refl, (refl, (refl, tt))));
  until = ground arith;
  status = refl;
  version = 1;
  is_version = refl;
  small = ground arith;
}

names_distinct : NamesDistinct files
unfolding equal
names_distinct = ((refl, tt), (tt, tt))

below_limit : length file ≤ 4294967295
unfolding header index_section data_section index_bytes padded put_le summary_data write_string1
    write_string2 write_strings
below_limit = ground arith

lookup-write_binary_cache_example :
    (c : BinaryCache) × (load_binary_cache (some file) ≡ ok c)
    × (lookup c (codes "b.md") ≡ some (some second))
unfolding find_file equal
lookup-write_binary_cache_example =
    lookup-write_binary_cache files file (IsCacheable-second, (IsCacheable-first, tt))
      names_distinct written below_limit (codes "b.md")

abbrev cache : BinaryCache
cache = record { buf = file; entry_count = 2 }

loaded : load_binary_cache (some file) ≡ ok cache
unfolding load_binary_cache all_in_bounds in_bounds header index_section data_section index_bytes
    padded put_le get_le summary_data write_string1 write_string2 write_strings equal
loaded = refl

read_raw_entry-inside_example : (e : RawCacheEntry) × (read_raw_entry cache 1 ≡ some e)
read_raw_entry-inside_example = read_raw_entry-inside file cache loaded 1 (ground arith)

binary_search-Returns_example :
    (r : Option ℕ) × (binary_search cache (codes "c.md") ≡ some r) × ((i : ℕ) → r ≡ some i → i < 2)
binary_search-Returns_example = binary_search-Returns file cache loaded (codes "c.md")

abbrev raw_files : List RawCacheEntry
raw_files = raw (codes "b.md") second ∷ raw (codes "a.md") first ∷ []

written_raw : write_binary_cache_raw raw_files ≡ ok file
unfolding write_binary_cache_raw sort_entries insert_entry check_sizes index_section data_section
    header summary_data write_string1 write_string2 write_strings less
written_raw = refl

IsEntry-first : IsEntry (raw (codes "a.md") first)
unfolding summary_data
IsEntry-first = record {
  plain_name = (refl, (refl, (refl, (refl, tt))));
  until = ground arith;
  filled = ground arith;
}

IsEntry-second : IsEntry (raw (codes "b.md") second)
unfolding summary_data
IsEntry-second = record {
  plain_name = (refl, (refl, (refl, (refl, tt))));
  until = ground arith;
  filled = ground arith;
}

IsDistinct-raw_files : IsDistinct raw_files
unfolding equal
IsDistinct-raw_files = ((refl, tt), (tt, tt))

delete_cache_entry_lem_example :
    (file_left : Bytes) × (delete_cache_entry (some file) (codes "b.md") ≡ rewritten file_left)
    × ((other : Bytes)
        → (c : BinaryCache) × (load_binary_cache (some file_left) ≡ ok c)
          × (lookup c other ≡ (
              if equal other (codes "b.md")
              then some none
              else found (find_entry other raw_files))))
delete_cache_entry_lem_example =
    delete_cache_entry_lem raw_files file (IsEntry-second, (IsEntry-first, tt)) written_raw
      IsDistinct-raw_files below_limit (codes "b.md")

-- The roots, of any status and type.
abbrev roots : FilterEntriesOpts
roots = record {
  status = none;
  priority = 0;
  ticket_type = none;
  parent = [];
  roots_only = true;
  limit = 0;
  offset = 0;
}

filter_cache-write_raw_example :
    (load_binary_cache (some file) ≡ ok cache) × (filter_cache cache roots ≡ some (some (0 ∷ [])))
unfolding filter_entries entries_loop entry_matches sort_entries insert_entry less equal
    stored_parent
filter_cache-write_raw_example =
    filter_cache-write_raw raw_files file (IsEntry-second, (IsEntry-first, tt)) written_raw
      below_limit roots
