-- ===== src/Cache/Fields.antt =====
-- The fields of a cache file, read back one by one.
use agent_task.Prelude.{
  ℕ, ◌+◌, ◌*◌, ◌≤◌, ◌≡◌, refl, ap, ◌∙◌, true, false, some, List, [], ◌∷◌, ◌++◌, leb, length,
  get_elem?, arith,
}
use agent_task.Text.{Bytes, Lacks, ℤ, pos, negsuc, put_le, length-put_le}
use agent_task.Cache.{RawCacheEntry}
use agent_task.Cache.Slices.{slice, until_zero, slice_behind, slice_front, get_elem?_behind}
use agent_task.Cache.File.{BinaryCache, mtime_of, int64_max}
use agent_task.Cache.Writer.{padded, is_negative, magnitude, index_section, data_section, header}
use agent_task.Cache.Padding.{
  stored_parent, take_short, until_zero-Lacks, until_zero-padded, length-padded,
}
use agent_task.Cache.Placed.{behind_name}

-- What the fields of the file can hold of an entry.
pub record IsFitting (e : RawCacheEntry) : Type 0 where
  pub short_name : length e.filename ≤ 32
  pub plain_name : Lacks 0 e.filename
  pub since : is_negative e.mtime ≡ false
  pub until : magnitude e.mtime ≤ 9223372036854775807
  pub filled : 1 ≤ length e.bytes

-- The entry that is read where `e` was written: the index holds twelve bytes of a parent.
abbrev pub as_stored : RawCacheEntry → RawCacheEntry
as_stored e = record {
  filename = e.filename;
  mtime = e.mtime;
  status = e.status;
  priority = e.priority;
  ticket_type = e.ticket_type;
  parent = stored_parent e.parent;
  bytes = e.bytes;
}

abbrev pub file_of : List RawCacheEntry → Bytes
file_of entries =
    let n = length entries in
    header n ++ (index_section (32 + n * 68) entries ++ data_section entries)

abbrev pub cache_of : List RawCacheEntry → BinaryCache
cache_of entries = record { buf = file_of entries; entry_count = length entries }

pub length-header : (n : ℕ) → length (header n) ≡ 32
unfolding header put_le
length-header n = refl

pub name-stored : (e : RawCacheEntry) → IsFitting e → until_zero (padded 32 e.filename) ≡ e.filename
name-stored e k =
    until_zero-padded 32 e.filename
    ∙ ap until_zero (take_short 32 e.filename k.short_name)
    ∙ until_zero-Lacks e.filename k.plain_name

pub mtime-stored :
    (m : ℤ) → is_negative m ≡ false → magnitude m ≤ 9223372036854775807 → mtime_of (magnitude m) ≡ m
mtime-stored (negsuc n) h k = cc h
mtime-stored (pos n) h k = let fits : leb n int64_max ≡ true = ground arith in rw fits refl

-- The fields of an index entry, whatever follows it.
module _ (offset : ℕ) (e : RawCacheEntry) (tail : Bytes) where
  abbrev pub entry_bytes : Bytes
  entry_bytes = padded 32 e.filename ++ behind_name offset e tail

  pub in_entry : (m k : ℕ) → slice (32 + m) k entry_bytes ≡ slice m k (behind_name offset e tail)
  in_entry = slice_behind 32 (padded 32 e.filename) _ (length-padded 32 e.filename)

  pub name-field : slice 0 32 entry_bytes ≡ some (padded 32 e.filename)
  name-field = slice_front 32 (padded 32 e.filename) _ (length-padded 32 e.filename)

  pub mtime-field : slice 32 8 entry_bytes ≡ some (put_le 8 (magnitude e.mtime))
  mtime-field =
      in_entry 0 8
      ∙ slice_front 8 (put_le 8 (magnitude e.mtime)) _ (length-put_le 8 (magnitude e.mtime))

  pub offset-field : slice 40 4 entry_bytes ≡ some (put_le 4 offset)
  offset-field =
      in_entry 8 4
      ∙ slice_behind 8 (put_le 8 (magnitude e.mtime)) _ (length-put_le 8 (magnitude e.mtime)) 0 4
      ∙ slice_front 4 (put_le 4 offset) _ (length-put_le 4 offset)

  pub length-field : slice 44 2 entry_bytes ≡ some (put_le 2 (length e.bytes))
  length-field =
      in_entry 12 2
      ∙ slice_behind 8 (put_le 8 (magnitude e.mtime)) _ (length-put_le 8 (magnitude e.mtime)) 4 2
      ∙ slice_behind 4 (put_le 4 offset) _ (length-put_le 4 offset) 0 2
      ∙ slice_front 2 (put_le 2 (length e.bytes)) _ (length-put_le 2 (length e.bytes))

  pub byte-field :
      (i : ℕ) → get_elem? entry_bytes (32 + i) ≡ get_elem? (behind_name offset e tail) i
  byte-field i = get_elem?_behind 32 i (padded 32 e.filename) _ (length-padded 32 e.filename)

  pub status-field : get_elem? entry_bytes 46 ≡ some e.status
  unfolding put_le
  status-field = byte-field 14

  pub priority-field : get_elem? entry_bytes 47 ≡ some e.priority
  unfolding put_le
  priority-field = byte-field 15

  pub ticket_type-field : get_elem? entry_bytes 48 ≡ some e.ticket_type
  unfolding put_le
  ticket_type-field = byte-field 16

  pub parent-field : slice 49 12 entry_bytes ≡ some (padded 12 e.parent)
  unfolding put_le
  parent-field =
      in_entry 17 12
      ∙ slice_behind 17
          (put_le 8 (magnitude e.mtime)
            ++ (put_le 4 offset
                ++ (put_le 2 (length e.bytes) ++ (e.status ∷ e.priority ∷ e.ticket_type ∷ []))))
          _ refl 0 12
      ∙ slice_front 12 (padded 12 e.parent) _ (length-padded 12 e.parent)
