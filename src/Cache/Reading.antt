-- ===== src/Cache/Reading.antt =====
-- A written file is loaded, and each entry of its index is read as it was written.
use agent_task.Prelude.{
  ℕ, ◌+◌, ◌*◌, ◌≤◌, ◌≡◌, refl, sym, ap, ◌∙◌, some, List, ◌++◌, append_assoc, length, length-append,
  get_elem?, arith,
}
use agent_task.Result.{ok}
use agent_task.Text.{Bytes, put_le, get_le, get_le-put_le}
use agent_task.Cache.{RawCacheEntry}
use agent_task.Cache.Slices.{
  slice, slice_from, slice_behind, slice_front, slice_from_behind, get_elem?_behind,
}
use agent_task.Cache.File.{entry_offset, read_filename, read_index_entry, read_raw_entry, mtime_of}
use agent_task.Cache.Writer.{
  padded, check_sizes, magnitude, index_bytes, index_section, data_section, header,
}
use agent_task.Cache.Padding.{stored_parent, until_zero-padded}
use agent_task.Cache.Placed.{index_bytes-append, length-index_section, IsPlaced, get-IsPlaced}
use agent_task.Cache.Fields.{
  IsFitting, as_stored, file_of, cache_of, length-header, name-stored, mtime-stored, entry_bytes,
  name-field, mtime-field, offset-field, length-field, status-field, priority-field,
  ticket_type-field, parent-field,
}

-- An entry of a written file. The sizes have been checked.
module _ (entries : List RawCacheEntry) (i : ℕ) (e : RawCacheEntry)
    (sizes : check_sizes (32 + length entries * 68) entries ≡ ok tt)
    (here : get_elem? entries i ≡ some e) where
  abbrev pub place : IsPlaced (32 + length entries * 68) entries i e
  place = get-IsPlaced (32 + length entries * 68) entries i e sizes here

  abbrev pub tail_of : Bytes
  tail_of = place.rest ++ data_section entries

  length-front : length (header (length entries) ++ place.front) ≡ 32 + i * 68
  length-front = omega (
    arith,
    length-append (header (length entries)) place.front,
    length-header (length entries),
    place.length_front,
  )

  around_entry :
      file_of entries
      ≡ (header (length entries) ++ place.front) ++ entry_bytes place.offset e tail_of
  around_entry =
      let n = length entries in
      let ib = index_bytes place.offset e in
      ap (λ s. header n ++ (s ++ data_section entries)) place.indexed
      ∙ ap (λ s. header n ++ s)
          (append_assoc place.front (ib ++ place.rest) (data_section entries)
            ∙ ap (λ s. place.front ++ s)
                (append_assoc ib place.rest (data_section entries)
                  ∙ index_bytes-append place.offset e tail_of))
      ∙ sym (append_assoc (header n) place.front (entry_bytes place.offset e tail_of))

  pub slice-entry :
      (m k : ℕ)
      → slice (entry_offset i + m) k (file_of entries)
        ≡ slice m k (entry_bytes place.offset e tail_of)
  slice-entry m k =
      ap (slice (entry_offset i + m) k) around_entry
      ∙ slice_behind (32 + i * 68) _ (entry_bytes place.offset e tail_of) length-front m k

  pub get_elem?-entry :
      (m : ℕ)
      → get_elem? (file_of entries) (entry_offset i + m)
        ≡ get_elem? (entry_bytes place.offset e tail_of) m
  get_elem?-entry m =
      ap (λ s. get_elem? s (entry_offset i + m)) around_entry
      ∙ get_elem?_behind (32 + i * 68) m _ (entry_bytes place.offset e tail_of) length-front

  slice_from-entry :
      slice_from (entry_offset i) (file_of entries) ≡ some (entry_bytes place.offset e tail_of)
  slice_from-entry =
      ap (slice_from (entry_offset i)) around_entry
      ∙ slice_from_behind (32 + i * 68) _ (entry_bytes place.offset e tail_of) length-front

  around_bytes :
      file_of entries
      ≡ ((header (length entries) ++ index_section (32 + length entries * 68) entries)
          ++ place.data_front)
        ++ (e.bytes ++ place.data_rest)
  around_bytes =
      let h = header (length entries) in
      let index = index_section (32 + length entries * 68) entries in
      ap (λ s. h ++ (index ++ s)) place.stored
      ∙ sym (append_assoc h index (place.data_front ++ (e.bytes ++ place.data_rest)))
      ∙ sym (append_assoc (h ++ index) place.data_front (e.bytes ++ place.data_rest))

  length-before :
      length (
        (header (length entries) ++ index_section (32 + length entries * 68) entries)
        ++ place.data_front)
      ≡ place.offset
  length-before =
      let h = header (length entries) in
      let index = index_section (32 + length entries * 68) entries in
      omega (
        arith,
        length-append (h ++ index) place.data_front,
        length-append h index,
        length-header (length entries),
        length-index_section (32 + length entries * 68) entries,
        place.is_offset,
      )

  bytes-stored : slice place.offset (length e.bytes) (file_of entries) ≡ some e.bytes
  bytes-stored =
      let at : place.offset + 0 ≡ place.offset = omega arith in
      ap (λ o. slice o (length e.bytes) (file_of entries)) (sym at)
      ∙ ap (slice (place.offset + 0) (length e.bytes)) around_bytes
      ∙ slice_behind place.offset _ (e.bytes ++ place.data_rest) length-before 0 (length e.bytes)
      ∙ slice_front (length e.bytes) e.bytes place.data_rest refl

  pub bytes_inside : place.offset + length e.bytes ≤ length (file_of entries)
  bytes_inside =
      let before =
        (header (length entries) ++ index_section (32 + length entries * 68) entries)
        ++ place.data_front in
      let size : length (file_of entries) ≡ length before + length (e.bytes ++ place.data_rest) =
        ap length around_bytes ∙ length-append before (e.bytes ++ place.data_rest) in
      omega (arith, size, length-before, length-append e.bytes place.data_rest)

  pub offset_value : get_le (put_le 4 place.offset) ≡ place.offset
  offset_value = get_le-put_le 4 place.offset (omega (arith, place.small))

  pub length_value : get_le (put_le 2 (length e.bytes)) ≡ length e.bytes
  length_value = get_le-put_le 2 (length e.bytes) (omega (arith, place.short))

  module _ (k : IsFitting e) where
    pub read_filename-written : read_filename (cache_of entries) i ≡ some e.filename
    unfolding read_filename
    read_filename-written =
        let at : entry_offset i + 0 ≡ entry_offset i = omega arith in
        let name : slice (entry_offset i) 32 (file_of entries) ≡ some (padded 32 e.filename) =
          ap (λ o. slice o 32 (file_of entries)) (sym at)
          ∙ slice-entry 0 32
          ∙ name-field place.offset e tail_of in
        rw name (ap some (name-stored e k))

    mtime_value : mtime_of (get_le (put_le 8 (magnitude e.mtime))) ≡ e.mtime
    mtime_value =
        ap mtime_of (get_le-put_le 8 (magnitude e.mtime) (omega (arith, k.until)))
        ∙ mtime-stored e.mtime k.since k.until

    pub read_raw_entry-written : read_raw_entry (cache_of entries) i ≡ some (as_stored e)
    unfolding read_raw_entry read_index_entry stored_parent
    read_raw_entry-written =
        let offset = place.offset in
        let tail = tail_of in
        rw
          (
            slice_from-entry,
            name-field offset e tail,
            mtime-field offset e tail,
            parent-field offset e tail,
            offset-field offset e tail,
            length-field offset e tail,
            status-field offset e tail,
            priority-field offset e tail,
            ticket_type-field offset e tail,
            offset_value,
            length_value,
            bytes-stored,
          )
          (λ j. some (record {
            filename = name-stored e k j;
            mtime = mtime_value j;
            status = e.status;
            priority = e.priority;
            ticket_type = e.ticket_type;
            parent = until_zero-padded 12 e.parent j;
            bytes = e.bytes;
          }))
