-- ===== src/Cache/File.antt =====
-- internal/ticket/cache.go: the cache file. `LoadBinaryCache` checks it, `Lookup` searches its index.
-- The file is the bytes that are mapped, or `none` where there is no such file; that it opens, is read
-- and can be mapped is taken for granted, and so is that the cache is not closed.
use agent_task.Prelude.{
  ℕ, zero, suc, ◌+◌, ◌-◌, ◌*◌, ◌/◌, Bool, true, not, ◌&&◌, Option, none, some, List, [], ◌∷◌, ltb,
  leb, ◌==◌, if◌then◌else◌, take, drop, length, get_elem?,
}
use agent_task.Result.{
  Result, ok, err, cache_not_found, cache_corrupt, invalid_magic, version_mismatch, file_too_small,
  file_too_large,
}
use agent_task.Text.{Bytes, codes, equal, less, get_le, ℤ, pos, negsuc}
use agent_task.Ticket.{Summary}
use agent_task.Cache.{RawCacheEntry, read_data_entry}
use agent_task.Cache.Slices.{◌>>=◌, slice, slice_from, until_zero}

abbrev pub cache_magic : Bytes
cache_magic = codes "TKC1"

abbrev pub cache_version_num : ℕ
cache_version_num = 6

abbrev pub cache_header_size : ℕ
cache_header_size = 32

abbrev pub index_entry_size : ℕ
index_entry_size = 68

abbrev pub max_filename_len : ℕ
max_filename_len = 32

abbrev pub max_parent_len : ℕ
max_parent_len = 12

abbrev pub uint32_max : ℕ
uint32_max = 4294967295

-- `math.MaxInt64`.
abbrev pub int64_max : ℕ
int64_max = 9223372036854775807

pub record BinaryCache : Type 0 where
  pub buf : Bytes
  pub entry_count : ℕ

-- `data[from : from+n]`, where `LoadBinaryCache` has compared the size before.
abbrev pub bytes_at : ℕ → ℕ → Bytes → Bytes
bytes_at from n buf = take n (drop from buf)

abbrev pub entry_offset : ℕ → ℕ
entry_offset i = cache_header_size + i * index_entry_size

-- The data of the entry at `i` lies within the file.
unfoldable pub in_bounds : Bytes → ℕ → Bool
in_bounds buf i =
    let offset = get_le (bytes_at (entry_offset i + 40) 4 buf) in
    let len = get_le (bytes_at (entry_offset i + 44) 2 buf) in
    ltb offset (length buf) && leb len (length buf - offset)

-- From the entry at `i` on, `n` entries.
unfoldable pub all_in_bounds : Bytes → ℕ → ℕ → Bool
unfolding in_bounds
all_in_bounds buf zero i = true
all_in_bounds buf (suc n) i = in_bounds buf i && all_in_bounds buf n (i + 1)

unfoldable pub load_binary_cache : Option Bytes → Result BinaryCache
unfolding all_in_bounds
load_binary_cache none = err cache_not_found
load_binary_cache (some buf) =
    let entry_count = get_le (bytes_at 6 4 buf) in
    if ltb (length buf) cache_header_size
    then err file_too_small
    else if not (equal (bytes_at 0 4 buf) cache_magic)
    then err invalid_magic
    else if not (get_le (bytes_at 4 2 buf) == cache_version_num)
    then err version_mismatch
    else if ltb (length buf) (cache_header_size + entry_count * index_entry_size)
    then err file_too_small
    else if ltb uint32_max (length buf)
    then err file_too_large
    else if not (all_in_bounds buf entry_count 0)
    then err cache_corrupt
    else ok (record { buf = buf; entry_count = entry_count })

unfoldable pub read_filename : BinaryCache → ℕ → Option Bytes
read_filename c i = do
  name_bytes ← slice (entry_offset i) max_filename_len c.buf
  some (until_zero name_bytes)

-- `indexEntryData`.
pub record IndexEntryData : Type 0 where
  pub filename : Bytes
  pub mtime : ℤ
  pub data_offset : ℕ
  pub data_length : ℕ
  pub status : ℕ
  pub priority : ℕ
  pub ticket_type : ℕ
  pub parent : Bytes

abbrev pub mtime_of : ℕ → ℤ
mtime_of raw = if leb raw int64_max then pos raw else pos 0

unfoldable pub read_index_entry : BinaryCache → ℕ → Option IndexEntryData
read_index_entry c i = do
  buf ← slice_from (entry_offset i) c.buf
  name_bytes ← slice 0 max_filename_len buf
  mtime_raw ← slice 32 8 buf
  parent_bytes ← slice 49 max_parent_len buf
  data_offset ← slice 40 4 buf
  data_length ← slice 44 2 buf
  status ← get_elem? buf 46
  priority ← get_elem? buf 47
  ticket_type ← get_elem? buf 48
  some (record {
    filename = until_zero name_bytes;
    mtime = mtime_of (get_le mtime_raw);
    data_offset = get_le data_offset;
    data_length = get_le data_length;
    status = status;
    priority = priority;
    ticket_type = ticket_type;
    parent = until_zero parent_bytes;
  })

unfoldable pub read_raw_entry : BinaryCache → ℕ → Option RawCacheEntry
unfolding read_index_entry
read_raw_entry c i = do
  entry ← read_index_entry c i
  bytes ← slice entry.data_offset entry.data_length c.buf
  some (record {
    filename = entry.filename;
    mtime = entry.mtime;
    status = entry.status;
    priority = entry.priority;
    ticket_type = entry.ticket_type;
    parent = entry.parent;
    bytes = bytes;
  })

-- From the entry at `i` on, `n` entries, in the order of the index.
unfoldable pub read_raw_entries : BinaryCache → ℕ → ℕ → Option (List RawCacheEntry)
unfolding read_raw_entry
read_raw_entries c zero i = some []
read_raw_entries c (suc n) i = do
  entry ← read_raw_entry c i
  entries ← read_raw_entries c n (i + 1)
  some (entry ∷ entries)

unfoldable pub compare_strings : Bytes → Bytes → ℤ
compare_strings a b = if less a b then negsuc 0 else if less b a then pos 1 else pos 0

-- The three cases of the `switch` on a comparison.
abbrev pub switch {ℓ} : {A : Type ℓ} → ℤ → A → A → A → A
switch (pos zero) same below above = same
switch (negsuc n) same below above = below
switch (pos (suc n)) same below above = above

-- The loop of `binarySearch` for `low` and `high + 1`. `some none` is its -1; `none` is a panic, or the
-- end of the fuel.
unfoldable pub search_loop : BinaryCache → Bytes → ℕ → ℕ → ℕ → Option (Option ℕ)
unfolding read_filename compare_strings
search_loop c filename zero low end = none
search_loop c filename (suc fuel) low end =
    let mid = (low + (end - 1)) / 2 in
    let below = search_loop c filename fuel low mid in
    let above = search_loop c filename fuel (mid + 1) end in
    let compared = read_filename c mid >>= λ mid_name.
    switch (compare_strings filename mid_name) (some (some mid)) below above in
    if ltb low end then compared else some none

unfoldable pub binary_search : BinaryCache → Bytes → Option (Option ℕ)
unfolding search_loop
binary_search c filename = search_loop c filename (c.entry_count + 1) 0 c.entry_count

pub record CacheEntry : Type 0 where
  pub mtime : ℤ
  pub summary : Summary

-- What `Lookup` returns of the entry at an index: `readDataEntry` reads the bytes of a raw entry.
unfoldable pub entry_at : BinaryCache → Option ℕ → Option (Option CacheEntry)
unfolding read_raw_entry
entry_at c none = some none
entry_at c (some i) = do
  entry ← read_raw_entry c i
  summary ← read_data_entry entry
  some (some (record { mtime = entry.mtime; summary = summary }))

unfoldable pub lookup : BinaryCache → Bytes → Option (Option CacheEntry)
unfolding binary_search entry_at
lookup c filename = binary_search c filename >>= entry_at c
