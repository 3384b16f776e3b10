-- ===== src/Cache/Lookup.antt =====
-- `Lookup` in a file that `writeBinaryCacheRaw` wrote is a lookup in the map that was written.
use agent_task.Prelude.{
  ℕ, ◌+◌, ◌*◌, ◌≤◌, ◌≡◌, refl, sym, ap, ◌∙◌, Bool, true, not, Option, none, some, List, [], ◌∷◌,
  ◌++◌, ltb, leb, length, arith, subst, All, all,
}
use agent_task.Result.{ok, >>=-eq-ok}
use agent_task.Text.{Bytes, Lacks}
use agent_task.Cache.{RawCacheEntry, read_data_entry}
use agent_task.Cache.Slices.{◌>>=◌, get_elem?_within}
use agent_task.Cache.File.{
  BinaryCache, CacheEntry, load_binary_cache, read_raw_entry, binary_search, entry_at, lookup,
  uint32_max,
}
use agent_task.Cache.Writer.{
  check_sizes, is_negative, magnitude, header, index_section, data_section, sort_entries,
  write_binary_cache_raw, find_entry,
}
use agent_task.Cache.Fields.{as_stored, file_of, cache_of, IsFitting}
use agent_task.Cache.Reading.{read_filename-written, read_raw_entry-written}
use agent_task.Cache.Loading.{load-written}
use agent_task.Cache.RoundTrip.{went_on}
use agent_task.Cache.Sorted.{
  IsSorted, IsDistinct, All-get, length-sort, sort-All, sort-IsSorted, find-sort, find-get,
  find-absent,
}
use agent_task.Cache.Search.{Locates, search_loop-Locates}

-- What the Go types and the makers of an entry grant of it.
pub record IsEntry (e : RawCacheEntry) : Type 0 where
  pub plain_name : Lacks 0 e.filename
  pub until : magnitude e.mtime ≤ 9223372036854775807
  pub filled : 1 ≤ length e.bytes

-- `Lookup` of what a map holds; reading the bytes of an entry may fail.
abbrev pub found : Option RawCacheEntry → Option (Option CacheEntry)
found none = some none
found (some e) =
    read_data_entry e >>= λ summary. some (some (record { mtime = e.mtime; summary = summary }))

abbrev pub cache_with : Bytes → List RawCacheEntry → BinaryCache
cache_with file entries = record { buf = file; entry_count = length entries }

all-All :
    (p : RawCacheEntry → Bool) (entries : List RawCacheEntry)
    → all p entries ≡ true
    → All (λ e. p e ≡ true) entries
all-All p [] h = tt
all-All p (e ∷ entries) h = (ground arith, all-All p entries (ground arith))

all-IsFitting :
    (entries : List RawCacheEntry)
    → All IsEntry entries
    → All (λ e. leb (length e.filename) 32 ≡ true) entries
    → All (λ e. not (is_negative e.mtime) ≡ true) entries
    → All IsFitting entries
all-IsFitting [] h names times = tt
all-IsFitting (e ∷ entries) (h, hs) (name, names) (time, times) = (
  record {
    short_name = ground arith;
    plain_name = h.plain_name;
    since = ground arith;
    until = h.until;
    filled = h.filled;
  },
  all-IsFitting entries hs names times,
)

-- What a write that succeeds has checked, and the file that it leaves.
module _ (entries : List RawCacheEntry) (file : Bytes) (h : All IsEntry entries)
    (written : write_binary_cache_raw entries ≡ ok file) where
  abbrev pub sorted : List RawCacheEntry
  sorted = sort_entries entries

  pub write-inv :
      All IsFitting sorted
      × (check_sizes (32 + length sorted * 68) sorted ≡ ok tt)
      × (file_of sorted ≡ file)
  unfolding write_binary_cache_raw
  write-inv =
      let (names, w1) = went_on (not (all (λ e. leb (length e.filename) 32) entries)) _ _ written in
      let (few, w2) = went_on (ltb uint32_max (length entries)) _ _ w1 in
      let (u, sizes, w3) = >>=-eq-ok (check_sizes (32 + length entries * 68) sorted) _ w2 in
      let (times, w4) = went_on (not (all (λ e. not (is_negative e.mtime)) sorted)) _ _ w3 in
      let same = length-sort entries in
      (
        all-IsFitting sorted (sort-All IsEntry entries h)
            (sort-All _ entries (all-All (λ e. leb (length e.filename) 32) entries (ground arith)))
            (all-All (λ e. not (is_negative e.mtime)) sorted (ground arith)),
        subst (λ n. check_sizes (32 + n * 68) sorted ≡ ok tt) (sym same) sizes,
        subst (λ n. header n ++ (index_section (32 + n * 68) sorted ++ data_section sorted) ≡ file)
            (sym same) (cc w4),
      )

  -- The entry at an index, by what is known of the index.
  entry_at-Locates :
      (name : Bytes) (r : Option (Option ℕ))
      → IsSorted sorted
      → Locates name sorted 0 (length sorted) r
      → (r >>= entry_at (cache_of sorted)) ≡ found (find_entry name sorted)
  unfolding entry_at read_data_entry
  entry_at-Locates name none order l = absurd l
  entry_at-Locates name (some none) order l =
      let absent : find_entry name sorted ≡ none =
        find-absent name sorted
          (λ i e here. l i e (omega arith) (get_elem?_within i sorted here) here) in
      ap found (sym absent)
  entry_at-Locates name (some (some i)) order (e, here, same) =
      let (fitting, sizes, _) = write-inv in
      let held : find_entry name sorted ≡ some e =
        ap (λ n. find_entry n sorted) same ∙ find-get sorted i order here in
      let read : read_raw_entry (cache_of sorted) i ≡ some (as_stored e) =
        read_raw_entry-written sorted i e sizes here (All-get IsFitting sorted i fitting here) in
      rw (read, held) refl

  -- The file is loaded, and looking up a name in it is looking it up in the map: the name, however the
  -- map is ordered, gives its own entry, and a name that the map lacks gives none.
  pub lookup-write_raw :
      IsDistinct entries
      → length file ≤ 4294967295
      → (name : Bytes)
      → (load_binary_cache (some file) ≡ ok (cache_with file entries))
        × (lookup (cache_with file entries) name ≡ found (find_entry name entries))
  unfolding lookup binary_search
  lookup-write_raw distinct small name =
      let (fitting, sizes, is_file) = write-inv in
      let order = sort-IsSorted entries distinct in
      let same : cache_of sorted ≡ cache_with file entries =
        λ i. record { buf = is_file i; entry_count = length-sort entries i } in
      let loaded : load_binary_cache (some (file_of sorted)) ≡ ok (cache_of sorted) =
        load-written sorted sizes fitting
          (subst (λ f. length f ≤ 4294967295) (sym is_file) small) in
      let located : Locates name sorted 0 (length sorted) (binary_search (cache_of sorted) name) =
        search_loop-Locates name sorted order (cache_of sorted)
          (λ i e here.
            read_filename-written sorted i e sizes here (All-get IsFitting sorted i fitting here))
          (length sorted + 1) 0 (length sorted) (omega arith) (omega arith) (omega arith) in
      (
        ap (λ f. load_binary_cache (some f)) (sym is_file) ∙ loaded ∙ ap ok same,
        ap (λ c. lookup c name) (sym same)
            ∙ entry_at-Locates name (binary_search (cache_of sorted) name) order located
            ∙ ap found (find-sort name entries distinct),
      )
