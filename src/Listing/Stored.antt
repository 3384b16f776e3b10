-- ===== src/Listing/Stored.antt =====
-- The filter of internal/ticket/cache.go on a cache file: `FilterEntriesWithOpts` reads what it compares
-- from the index. All entries are read here; the source stops at the limit.
use agent_task.Prelude.{
  ℕ, zero, suc, ◌+◌, ◌*◌, ◌≤◌, ◌≡◌, refl, sym, ap, ◌∙◌, Option, some, List, [], ◌∷◌, length,
  get_elem?, arith, subst, All, map,
}
use agent_task.Result.{ok}
use agent_task.Text.{Bytes}
use agent_task.Cache.{RawCacheEntry}
use agent_task.Cache.Slices.{◌>>=◌, slice, until_zero}
use agent_task.Cache.File.{BinaryCache, entry_offset, load_binary_cache, max_parent_len}
use agent_task.Cache.Writer.{check_sizes, sort_entries, write_binary_cache_raw}
use agent_task.Cache.Padding.{stored_parent, until_zero-padded}
use agent_task.Cache.Fields.{
  cache_of, status-field, priority-field, ticket_type-field, parent-field,
}
use agent_task.Cache.Reading.{get_elem?-entry, slice-entry, place, tail_of}
use agent_task.Cache.Loading.{load-written}
use agent_task.Cache.Sorted.{length-sort}
use agent_task.Cache.Lookup.{IsEntry, cache_with, write-inv}
use agent_task.Listing.{IndexEntry, FilterEntriesOpts, filter_entries}

unfoldable pub read_filter_entry : BinaryCache → ℕ → Option IndexEntry
read_filter_entry c i = do
  status ← get_elem? c.buf (entry_offset i + 46)
  priority ← get_elem? c.buf (entry_offset i + 47)
  ticket_type ← get_elem? c.buf (entry_offset i + 48)
  parent_bytes ← slice (entry_offset i + 49) max_parent_len c.buf
  some (record {
    status = status;
    priority = priority;
    ticket_type = ticket_type;
    parent = until_zero parent_bytes;
  })

unfoldable pub read_filter_entries : BinaryCache → ℕ → ℕ → Option (List IndexEntry)
unfolding read_filter_entry
read_filter_entries c zero i = some []
read_filter_entries c (suc n) i = do
  entry ← read_filter_entry c i
  entries ← read_filter_entries c n (i + 1)
  some (entry ∷ entries)

unfoldable pub filter_cache : BinaryCache → FilterEntriesOpts → Option (Option (List ℕ))
unfolding read_filter_entries
filter_cache c o =
    read_filter_entries c c.entry_count 0 >>= λ entries. some (filter_entries entries o)

-- What the filter sees of an entry.
abbrev pub seen : RawCacheEntry → IndexEntry
seen e = record {
  status = e.status;
  priority = e.priority;
  ticket_type = e.ticket_type;
  parent = stored_parent e.parent;
}

module _ (entries : List RawCacheEntry)
    (sizes : check_sizes (32 + length entries * 68) entries ≡ ok tt) where
  read_filter_entry-written :
      (i : ℕ) (e : RawCacheEntry)
      → get_elem? entries i ≡ some e
      → read_filter_entry (cache_of entries) i ≡ some (seen e)
  unfolding read_filter_entry stored_parent
  read_filter_entry-written i e here =
      let offset = (place entries i e sizes here).offset in
      let tail = tail_of entries i e sizes here in
      rw
        (
          get_elem?-entry entries i e sizes here 46 ∙ status-field offset e tail,
          get_elem?-entry entries i e sizes here 47 ∙ priority-field offset e tail,
          get_elem?-entry entries i e sizes here 48 ∙ ticket_type-field offset e tail,
          slice-entry entries i e sizes here 49 12 ∙ parent-field offset e tail,
        )
        (λ j. some (record {
          status = e.status;
          priority = e.priority;
          ticket_type = e.ticket_type;
          parent = until_zero-padded 12 e.parent j;
        }))

  read_filter_entries-from :
      (rest : List RawCacheEntry) (i : ℕ)
      → ((j : ℕ) → get_elem? entries (i + j) ≡ get_elem? rest j)
      → read_filter_entries (cache_of entries) (length rest) i ≡ some (map seen rest)
  unfolding read_filter_entries
  read_filter_entries-from [] i h = refl
  read_filter_entries-from (e ∷ rest) i h =
      let start : i + 0 ≡ i = omega arith in
      let here : get_elem? entries i ≡ some e = ap (get_elem? entries) (sym start) ∙ h 0 in
      let later : (j : ℕ) → get_elem? entries (i + 1 + j) ≡ get_elem? rest j = λ j.
        (let next : i + 1 + j ≡ i + suc j = omega arith in
          ap (get_elem? entries) next ∙ h (suc j)) in
      rw (read_filter_entry-written i e here, read_filter_entries-from rest (i + 1) later) refl

-- The file that is written for a map is loaded, and the filter on it is the filter on the entries of the
-- map in the order of their names, of whose parents the index holds twelve bytes. The names hold no zero
-- byte, the mtimes are an int64, no data is empty and the file is below 4 GiB.
pub filter_cache-write_raw :
    (entries : List RawCacheEntry) (file : Bytes)
    → All IsEntry entries
    → write_binary_cache_raw entries ≡ ok file
    → length file ≤ 4294967295
    → (o : FilterEntriesOpts)
    → (load_binary_cache (some file) ≡ ok (cache_with file entries))
      × (filter_cache (cache_with file entries) o
          ≡ some (filter_entries (map seen (sort_entries entries)) o))
unfolding filter_cache
filter_cache-write_raw entries file h made small o =
    let sorted = sort_entries entries in
    let (fitting, sizes, is_file) = write-inv entries file h made in
    let same : cache_of sorted ≡ cache_with file entries =
      λ i. record { buf = is_file i; entry_count = length-sort entries i } in
    let read : read_filter_entries (cache_of sorted) (length sorted) 0 ≡ some (map seen sorted) =
      read_filter_entries-from sorted sizes sorted 0
        (λ j. (let here : 0 + j ≡ j = omega arith in ap (get_elem? sorted) here)) in
    (
      ap (λ f. load_binary_cache (some f)) (sym is_file)
          ∙ load-written sorted sizes fitting
              (subst (λ f. length f ≤ 4294967295) (sym is_file) small)
          ∙ ap ok same,
      ap (λ c. filter_cache c o) (sym same) ∙ rw read refl,
    )
