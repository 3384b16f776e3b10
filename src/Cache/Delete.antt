-- ===== src/Cache/Delete.antt =====
-- internal/ticket/cache.go: `DeleteCacheEntry` under its lock.
use agent_task.Prelude.{Bool, true, false, ◌||◌, Option, none, some, List, [], ◌∷◌, if◌then◌else◌}
use agent_task.Result.{
  Error, Result, ok, err, cache_not_found, cache_corrupt, invalid_magic, version_mismatch,
  file_too_small,
}
use agent_task.Text.{Bytes, equal}
use agent_task.Cache.{RawCacheEntry}
use agent_task.Cache.File.{BinaryCache, load_binary_cache, read_raw_entries}
use agent_task.Cache.Writer.{write_binary_cache_raw}

-- What becomes of the cache file.
pub data Change : Type 0 where
  panicked unchanged : Change
  refused : Error → Change
  rewritten : Bytes → Change

-- The errors of a cache that is rebuilt when it is read.
abbrev is_rebuilt : Error → Bool
is_rebuilt cache_not_found = true
is_rebuilt version_mismatch = true
is_rebuilt invalid_magic = true
is_rebuilt file_too_small = true
is_rebuilt cache_corrupt = true
is_rebuilt _ = false

abbrev pub has_name : Bytes → List RawCacheEntry → Bool
has_name name [] = false
has_name name (e ∷ entries) = equal name e.filename || has_name name entries

-- The map that `cacheEntriesAsRawMap` makes: of entries of one name the last one stays.
unfoldable pub as_raw_map : List RawCacheEntry → List RawCacheEntry
as_raw_map [] = []
as_raw_map (e ∷ entries) =
    let rest = as_raw_map entries in if has_name e.filename entries then rest else e ∷ rest

-- `delete(entries, filename)`.
unfoldable pub delete_entry : Bytes → List RawCacheEntry → List RawCacheEntry
delete_entry name [] = []
delete_entry name (e ∷ entries) =
    let rest = delete_entry name entries in if equal name e.filename then rest else e ∷ rest

abbrev pub written : Result Bytes → Change
written (err e) = refused e
written (ok buf) = rewritten buf

unfoldable pub delete_read : Bytes → Option (List RawCacheEntry) → Change
unfolding as_raw_map delete_entry
delete_read filename none = panicked
delete_read filename (some entries) =
    written (write_binary_cache_raw (delete_entry filename (as_raw_map entries)))

abbrev pub delete_loaded : Bytes → Result BinaryCache → Change
delete_loaded filename (err e) = if is_rebuilt e then unchanged else refused e
delete_loaded filename (ok c) = delete_read filename (read_raw_entries c c.entry_count 0)

unfoldable pub delete_cache_entry : Option Bytes → Bytes → Change
unfolding delete_read
delete_cache_entry file filename = delete_loaded filename (load_binary_cache file)
