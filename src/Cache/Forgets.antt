-- ===== src/Cache/Forgets.antt =====
-- `DeleteCacheEntry` on a written file leaves a file of the other entries.
use agent_task.Prelude.{
  ◌+◌, ◌*◌, ◌≤◌, ◌≡◌, refl, sym, ap, ◌∙◌, true, false, not, none, some, List, ltb, leb,
  if◌then◌else◌, length, arith, subst, All, all,
}
use agent_task.Result.{ok}
use agent_task.Text.{Bytes, equal}
use agent_task.Cache.{RawCacheEntry}
use agent_task.Cache.File.{BinaryCache, load_binary_cache, lookup, uint32_max}
use agent_task.Cache.Writer.{
  check_sizes, is_negative, sort_entries, write_binary_cache_raw, find_entry,
}
use agent_task.Cache.Fields.{file_of, cache_of}
use agent_task.Cache.Loading.{load-written, read_raw_entries-written, length-file_of}
use agent_task.Cache.Sorted.{IsSorted, IsDistinct, sort-IsSorted, find-sort}
use agent_task.Cache.Lookup.{IsEntry, found, cache_with, write-inv, lookup-write_raw}
use agent_task.Cache.Delete.{rewritten, delete_entry, as_raw_map, delete_read, delete_cache_entry}
use agent_task.Cache.Deleting.{
  stored, stored-IsSorted, delete-IsSorted, IsSorted-IsDistinct, sort-sorted, as_raw_map-distinct,
  check_sizes-delete, length-delete, length-data-delete, found-delete, delete-IsEntry,
}

-- Sorted entries that fit are written.
write-sorted :
    (entries : List RawCacheEntry)
    → IsSorted entries
    → all (λ e. leb (length e.filename) 32) entries ≡ true
    → all (λ e. not (is_negative e.mtime)) entries ≡ true
    → length entries ≤ 4294967295
    → check_sizes (32 + length entries * 68) entries ≡ ok tt
    → write_binary_cache_raw entries ≡ ok (file_of entries)
unfolding write_binary_cache_raw
write-sorted entries s names times few sizes =
    let count : ltb uint32_max (length entries) ≡ false = ground arith in
    rw (sort-sorted entries s, names, count, sizes, times) refl

module _ (entries : List RawCacheEntry) (file : Bytes) (h : All IsEntry entries)
    (made : write_binary_cache_raw entries ≡ ok file) (distinct : IsDistinct entries)
    (small : length file ≤ 4294967295) (name : Bytes) where
  abbrev sorted : List RawCacheEntry
  sorted = sort_entries entries

  abbrev left : List RawCacheEntry
  left = delete_entry name (stored sorted)

  left-IsSorted : IsSorted left
  left-IsSorted =
      delete-IsSorted name (stored sorted) (stored-IsSorted sorted (sort-IsSorted entries distinct))

  left_bytes : length (file_of left) ≤ 4294967295
  left_bytes =
      let (_, _, is_file) = write-inv entries file h made in
      omega (
        arith,
        length-file_of left,
        length-file_of sorted,
        length-delete name sorted,
        length-data-delete name sorted,
        ap length is_file,
        small,
      )

  write-left : write_binary_cache_raw left ≡ ok (file_of left)
  write-left =
      let (fitting, sizes, _) = write-inv entries file h made in
      let (_, names, times) = delete-IsEntry name sorted fitting in
      write-sorted left left-IsSorted names times (omega (arith, left_bytes, length-file_of left)) (
        check_sizes-delete name sorted (32 + length sorted * 68) (32 + length left * 68)
          (omega (arith, length-delete name sorted)) sizes)

  rewrites : delete_cache_entry (some file) name ≡ rewritten (file_of left)
  unfolding delete_cache_entry delete_read
  rewrites =
      let (fitting, sizes, is_file) = write-inv entries file h made in
      let loaded : load_binary_cache (some file) ≡ ok (cache_of sorted) =
        ap (λ f. load_binary_cache (some f)) (sym is_file)
        ∙ load-written sorted sizes fitting
            (subst (λ f. length f ≤ 4294967295) (sym is_file) small) in
      let same : as_raw_map (stored sorted) ≡ stored sorted = as_raw_map-distinct (stored sorted) (
        IsSorted-IsDistinct (stored sorted)
          (stored-IsSorted sorted (sort-IsSorted entries distinct))) in
      rw (loaded, read_raw_entries-written sorted sizes fitting, same, write-left) refl

  -- Deleting a name from the file that is written for a map rewrites the file. The new file is loaded,
  -- and looking up a name in it finds nothing if it is the deleted one, and otherwise what the map holds
  -- under it. The names of the map are distinct and hold no zero byte, the mtimes are an int64, no data
  -- is empty and the file is below 4 GiB.
  pub delete_cache_entry_lem :
      (file_left : Bytes) × (delete_cache_entry (some file) name ≡ rewritten file_left)
      × ((other : Bytes)
          → (c : BinaryCache) × (load_binary_cache (some file_left) ≡ ok c)
            × (lookup c other
                ≡ (if equal other name then some none else found (find_entry other entries))))
  delete_cache_entry_lem =
      let (fitting, _, _) = write-inv entries file h made in
      let (kept, _, _) = delete-IsEntry name sorted fitting in
      (
        file_of left,
        rewrites,
        λ other.
            (let (loaded, looked) =
                lookup-write_raw left (file_of left) kept write-left
                  (IsSorted-IsDistinct left left-IsSorted) left_bytes other in
              (
                cache_with (file_of left) left,
                loaded,
                looked
                    ∙ found-delete name other sorted
                    ∙ ap (λ e. if equal other name then some none else found e)
                        (find-sort other entries distinct),
              )),
      )
