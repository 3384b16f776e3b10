-- ===== src/Cache/Writer.antt =====
-- internal/ticket/cache.go: `writeBinaryCacheRaw` up to the bytes that `atomic.WriteFile` gets. The map
-- of entries is a list that holds no name twice.
use agent_task.Prelude.{
  ℕ, ◌+◌, ◌-◌, ◌*◌, Bool, true, false, not, Option, none, some, List, [], ◌∷◌, ◌++◌, ltb, leb,
  if◌then◌else◌, take, length, replicate, all,
}
use agent_task.Result.{
  Result, ok, err, ◌>>=◌, filename_too_long, too_many_entries, entry_too_large, file_too_large,
  negative_mtime,
}
use agent_task.Text.{Bytes, equal, less, put_le, ℤ, pos, negsuc}
use agent_task.Cache.{RawCacheEntry, uint16_max, cache_entry}
use agent_task.Cache.File.{
  cache_magic, cache_version_num, cache_header_size, index_entry_size, max_filename_len,
  max_parent_len, uint32_max, CacheEntry,
}

-- `sort.Strings` on the names.
unfoldable pub insert_entry : RawCacheEntry → List RawCacheEntry → List RawCacheEntry
insert_entry e [] = e ∷ []
insert_entry e (f ∷ entries) =
    let rest = insert_entry e entries in
    if less f.filename e.filename then f ∷ rest else e ∷ (f ∷ entries)

unfoldable pub sort_entries : List RawCacheEntry → List RawCacheEntry
unfolding insert_entry
sort_entries [] = []
sort_entries (e ∷ entries) = insert_entry e (sort_entries entries)

-- `copy` into `n` zero bytes.
unfoldable pub padded : ℕ → Bytes → Bytes
padded n s = take n s ++ replicate (n - length s) 0

-- The loop over the data: each entry's data and its offset fit their fields.
unfoldable pub check_sizes : ℕ → List RawCacheEntry → Result (Unit {0})
check_sizes offset [] = ok tt
check_sizes offset (e ∷ entries) =
    let rest = check_sizes (offset + length e.bytes) entries in
    if ltb uint16_max (length e.bytes)
    then err entry_too_large
    else if ltb uint32_max offset
    then err file_too_large
    else rest

abbrev pub is_negative : ℤ → Bool
is_negative (pos n) = false
is_negative (negsuc n) = true

-- `uint64(entry.mtime)` of an mtime that is not negative.
abbrev pub magnitude : ℤ → ℕ
magnitude (pos n) = n
magnitude (negsuc n) = 0

unfoldable pub index_bytes : ℕ → RawCacheEntry → Bytes
unfolding padded
index_bytes offset e =
    padded max_filename_len e.filename
    ++ (put_le 8 (magnitude e.mtime)
        ++ (put_le 4 offset
            ++ (put_le 2 (length e.bytes)
                ++ (e.status
                    ∷ e.priority
                    ∷ e.ticket_type
                    ∷ (padded max_parent_len e.parent ++ replicate 7 0)))))

unfoldable pub index_section : ℕ → List RawCacheEntry → Bytes
unfolding index_bytes
index_section offset [] = []
index_section offset (e ∷ entries) =
    index_bytes offset e ++ index_section (offset + length e.bytes) entries

unfoldable pub data_section : List RawCacheEntry → Bytes
data_section [] = []
data_section (e ∷ entries) = e.bytes ++ data_section entries

unfoldable pub header : ℕ → Bytes
header entry_count =
    cache_magic ++ (put_le 2 cache_version_num ++ (put_le 4 entry_count ++ replicate 22 0))

unfoldable pub write_binary_cache_raw : List RawCacheEntry → Result Bytes
unfolding sort_entries check_sizes index_section data_section header
write_binary_cache_raw entries =
    let sorted = sort_entries entries in
    let entry_count = length entries in
    let data_offset = cache_header_size + entry_count * index_entry_size in
    let index = index_section data_offset sorted in
    let written = check_sizes data_offset sorted >>= λ _.
    if not (all (λ e. not (is_negative e.mtime)) sorted)
    then err negative_mtime
    else ok (header entry_count ++ (index ++ data_section sorted)) in
    if not (all (λ e. leb (length e.filename) max_filename_len) entries)
    then err filename_too_long
    else if ltb uint32_max entry_count
    then err too_many_entries
    else written

-- What a map of entries holds under a name.
unfoldable pub find_entry : Bytes → List RawCacheEntry → Option RawCacheEntry
find_entry name [] = none
find_entry name (e ∷ entries) =
    let rest = find_entry name entries in if equal name e.filename then some e else rest

abbrev pub names_fit {ℓ} : {A : Type ℓ} → (A → Bytes) → List A → Bool
names_fit name files = all (λ f. leb (length (name f)) max_filename_len) files

-- The raw entries of `writeBinaryCache`, one for each ticket file and its entry.
unfoldable pub to_raw_entries : List (Bytes × CacheEntry) → Result (List RawCacheEntry)
to_raw_entries [] = ok []
to_raw_entries ((filename, entry) ∷ files) = do
  e ← cache_entry filename entry.mtime entry.summary
  entries ← to_raw_entries files
  ok (e ∷ entries)

unfoldable pub write_binary_cache : List (Bytes × CacheEntry) → Result Bytes
unfolding to_raw_entries write_binary_cache_raw
write_binary_cache files =
    let written = to_raw_entries files >>= write_binary_cache_raw in
    if not (names_fit (λ f. f.0) files) then err filename_too_long else written

-- What the map of `writeBinaryCache` holds under a name.
unfoldable pub find_file : Bytes → List (Bytes × CacheEntry) → Option CacheEntry
find_file name [] = none
find_file name ((filename, entry) ∷ files) =
    let rest = find_file name files in if equal name filename then some entry else rest
