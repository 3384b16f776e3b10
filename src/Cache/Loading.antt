-- ===== src/Cache/Loading.antt =====
-- What `writeBinaryCacheRaw` writes, `LoadBinaryCache` loads.
use agent_task.Prelude.{
  ℕ, zero, suc, ◌+◌, ◌*◌, ◌≤◌, ◌<◌, ◌≡◌, refl, sym, ap, ◌∙◌, true, false, some, List, [], ◌∷◌, ◌++◌,
  ltb, leb, length, length-append, get_elem?, inl, inr, Bool-cases, arith, All, map,
}
use agent_task.Result.{ok}
use agent_task.Text.{Bytes, put_le, get_le, get_le-put_le, equal, equal_refl}
use agent_task.Cache.{RawCacheEntry}
use agent_task.Cache.Slices.{slice, get_elem?_inside}
use agent_task.Cache.File.{
  bytes_at, entry_offset, in_bounds, all_in_bounds, load_binary_cache, read_raw_entries,
  cache_magic, uint32_max,
}
use agent_task.Cache.Writer.{check_sizes, index_section, data_section, header}
use agent_task.Cache.Placed.{length-index_section}
use agent_task.Cache.Fields.{
  as_stored, file_of, cache_of, length-header, offset-field, length-field, IsFitting,
}
use agent_task.Cache.Reading.{
  slice-entry, bytes_inside, offset_value, length_value, place, tail_of, read_raw_entry-written,
}
use agent_task.Cache.Sorted.{All-get}

slice-bytes_at : (from n : ℕ) (buf x : Bytes) → slice from n buf ≡ some x → bytes_at from n buf ≡ x
unfolding slice
slice-bytes_at from n buf x h = elim (Bool-cases (leb (from + n) (length buf))) [
  | inl inside ↦ cc (rw inside at h)
  | inr outside ↦ cc (rw outside at h)
]

pub length-file_of :
    (entries : List RawCacheEntry)
    → length (file_of entries) ≡ 32 + (length entries * 68 + length (data_section entries))
length-file_of entries =
    let n = length entries in
    omega (
      arith,
      length-append (header n) (index_section (32 + n * 68) entries ++ data_section entries),
      length-append (index_section (32 + n * 68) entries) (data_section entries),
      length-header n,
      length-index_section (32 + n * 68) entries,
    )

module _ (n : ℕ) (rest : Bytes) where
  magic-field : bytes_at 0 4 (header n ++ rest) ≡ cache_magic
  unfolding header
  magic-field = refl

  version-field : get_le (bytes_at 4 2 (header n ++ rest)) ≡ 6
  unfolding header put_le get_le
  version-field = refl

  count-field : bytes_at 6 4 (header n ++ rest) ≡ put_le 4 n
  unfolding header put_le
  count-field = refl

pub all_in_bounds_lem :
    (buf : Bytes) (m : ℕ)
    → ((i : ℕ) → i < m → in_bounds buf i ≡ true)
    → (n i : ℕ) → i + n ≤ m
    → all_in_bounds buf n i ≡ true
unfolding all_in_bounds
all_in_bounds_lem buf m h zero i k = refl
all_in_bounds_lem buf m h (suc n) i k =
    rw (h i (omega (arith, k)), all_in_bounds_lem buf m h n (i + 1) (omega (arith, k))) refl

-- The sizes of the entries have been checked.
module _ (entries : List RawCacheEntry)
    (sizes : check_sizes (32 + length entries * 68) entries ≡ ok tt)
    (fitting : All IsFitting entries) where
  in_bounds-written : (i : ℕ) → i < length entries → in_bounds (file_of entries) i ≡ true
  unfolding in_bounds
  in_bounds-written i h =
      let (e, here) = get_elem?_inside i entries (omega (arith, h)) in
      let k = All-get IsFitting entries i fitting here in
      let p = place entries i e sizes here in
      let tail = tail_of entries i e sizes here in
      let offset : get_le (bytes_at (entry_offset i + 40) 4 (file_of entries)) ≡ p.offset =
        ap get_le (
          slice-bytes_at (entry_offset i + 40) 4 (file_of entries) (put_le 4 p.offset)
            (slice-entry entries i e sizes here 40 4 ∙ offset-field p.offset e tail))
        ∙ offset_value entries i e sizes here in
      let len : get_le (bytes_at (entry_offset i + 44) 2 (file_of entries)) ≡ length e.bytes =
        ap get_le (
          slice-bytes_at (entry_offset i + 44) 2 (file_of entries) (put_le 2 (length e.bytes))
            (slice-entry entries i e sizes here 44 2 ∙ length-field p.offset e tail))
        ∙ length_value entries i e sizes here in
      rw (offset, len) (ground (arith, bytes_inside entries i e sizes here, k.filled))

  pub load-written :
      length (file_of entries) ≤ 4294967295
      → load_binary_cache (some (file_of entries)) ≡ ok (cache_of entries)
  unfolding load_binary_cache
  load-written small =
      let n = length entries in
      let size = length-file_of entries in
      let sections = index_section (32 + n * 68) entries ++ data_section entries in
      let count : get_le (bytes_at 6 4 (file_of entries)) ≡ n =
        ap get_le (count-field n sections) ∙ get_le-put_le 4 n (omega (arith, size, small)) in
      let magic : equal (bytes_at 0 4 (file_of entries)) cache_magic ≡ true =
        ap (λ s. equal s cache_magic) (magic-field n sections) ∙ equal_refl cache_magic in
      let version : get_le (bytes_at 4 2 (file_of entries)) ≡ 6 = version-field n sections in
      let c1 : ltb (length (file_of entries)) 32 ≡ false = ground arith in
      let c2 : ltb (length (file_of entries)) (32 + n * 68) ≡ false = ground arith in
      let c3 : ltb uint32_max (length (file_of entries)) ≡ false = ground arith in
      rw
        (
          c1,
          magic,
          version,
          count,
          c2,
          c3,
          all_in_bounds_lem (file_of entries) n in_bounds-written n 0 (omega arith),
        )
        refl

  read_raw_entries-from :
      (rest : List RawCacheEntry) (i : ℕ)
      → ((j : ℕ) → get_elem? entries (i + j) ≡ get_elem? rest j)
      → read_raw_entries (cache_of entries) (length rest) i ≡ some (map as_stored rest)
  unfolding read_raw_entries
  read_raw_entries-from [] i h = refl
  read_raw_entries-from (e ∷ rest) i h =
      let start : i + 0 ≡ i = omega arith in
      let here : get_elem? entries i ≡ some e = ap (get_elem? entries) (sym start) ∙ h 0 in
      let later : (j : ℕ) → get_elem? entries (i + 1 + j) ≡ get_elem? rest j = λ j.
        (let next : i + 1 + j ≡ i + suc j = omega arith in
          ap (get_elem? entries) next ∙ h (suc j)) in
      rw
        (
          read_raw_entry-written entries i e sizes here (All-get IsFitting entries i fitting here),
          read_raw_entries-from rest (i + 1) later,
        )
        refl

  pub read_raw_entries-written :
      read_raw_entries (cache_of entries) (length entries) 0 ≡ some (map as_stored entries)
  read_raw_entries-written =
      read_raw_entries-from entries 0
        (λ j. (let here : 0 + j ≡ j = omega arith in ap (get_elem? entries) here))
