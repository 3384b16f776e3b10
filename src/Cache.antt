-- ===== src/Cache.antt =====
-- internal/ticket/cache.go: the record of one ticket in the binary cache, `encodeSummaryData` and
-- `readDataEntry`, and the bytes that stand for a status and a type. `File` reads the file around the
-- records, `Writer` writes it.
pub mod Words
pub mod RoundTrip
pub mod Slices
pub mod File
pub mod Writer
pub mod Sorted
pub mod Search
pub mod Padding
pub mod Placed
pub mod Fields
pub mod Reading
pub mod Loading
pub mod Lookup
pub mod Cached
pub mod Bounds
pub mod Delete
pub mod Deleting
pub mod Forgets
use agent_task.Prelude.{
  ℕ, zero, suc, ◌+◌, ◌-◌, ◌*◌, ◌/◌, ◌%◌, Bool, true, false, not, ◌&&◌, ◌||◌, Option, none, some,
  List, [], ◌∷◌, ◌++◌, map, ltb, leb, ◌==◌, if◌then◌else◌, take, drop, length,
}
use agent_task.Result.{
  Error, Result, ok, err, ◌>>=◌, id_too_long, created_too_long, closed_too_long, assignee_too_long,
  parent_too_long, title_too_long, path_too_long, too_many_blockers, blocker_id_too_long,
  entry_too_large, invalid_ticket_type, invalid_ticket_prio,
}
use agent_task.Text.{Bytes, codes, equal, ℤ, pos, negsuc}
use agent_task.Ticket.{
  Summary, status_open, status_in_progress, status_closed, is_valid_type, is_valid_priority,
  write_all,
}

unfoldable pub status_string_to_byte : Bytes → ℕ
status_string_to_byte s =
    if equal s status_in_progress then 1 else if equal s status_closed then 2 else 0

unfoldable pub status_byte_to_string : ℕ → Bytes
status_byte_to_string b =
    if b == 1 then status_in_progress else if b == 2 then status_closed else status_open

-- `strings.ToLower`, on the ASCII letters.
abbrev to_lower : Bytes → Bytes
to_lower s = map (λ c. if leb b'A' c && leb c b'Z' then c + 32 else c) s

unfoldable pub type_string_to_byte : Bytes → ℕ
type_string_to_byte s =
    let t = to_lower s in
    if equal t (codes "feature")
    then 1
    else if equal t (codes "task")
    then 2
    else if equal t (codes "epic")
    then 3
    else if equal t (codes "chore")
    then 4
    else 0

unfoldable pub type_byte_to_string : ℕ → Bytes
type_byte_to_string b =
    if b == 1
    then codes "feature"
    else if b == 2
    then codes "task"
    else if b == 3
    then codes "epic"
    else if b == 4
    then codes "chore"
    else codes "bug"

-- `rawCacheEntry`: what the index holds of a ticket, and its data.
pub record RawCacheEntry : Type 0 where
  pub filename : Bytes
  pub mtime : ℤ
  pub status : ℕ
  pub priority : ℕ
  pub ticket_type : ℕ
  pub parent : Bytes
  pub bytes : Bytes

abbrev pub uint8_max : ℕ
uint8_max = 255

abbrev pub uint16_max : ℕ
uint16_max = 65535

-- `byte(len(str))` and the text.
unfoldable pub write_string1 : Bytes → Bytes
write_string1 s = length s % 256 ∷ s

-- The length in two bytes, the low one first.
unfoldable pub write_string2 : Bytes → Bytes
write_string2 s = length s % 256 ∷ (length s / 256 % 256 ∷ s)

unfoldable pub write_strings : List Bytes → Bytes
write_strings [] = []
write_strings (s ∷ ss) = write_string1 s ++ write_strings ss

-- `byte(n)` of an `int`.
abbrev pub to_byte : ℤ → ℕ
to_byte (pos n) = n % 256
to_byte (negsuc n) = 255 - n % 256

unfoldable pub check_blocker_lengths : List Bytes → Result (Unit {0})
check_blocker_lengths [] = ok tt
check_blocker_lengths (b ∷ blockers) =
    if ltb uint8_max (length b) then err blocker_id_too_long else check_blocker_lengths blockers

unfoldable pub summary_data : Summary → Bytes
unfolding write_string1 write_string2 write_strings
summary_data s =
    to_byte s.schema_version
    ∷ write_all (
        write_string1 s.id
        ∷ write_string2 s.title
        ∷ write_string1 s.created
        ∷ write_string1 s.closed
        ∷ write_string1 s.assignee
        ∷ write_string2 s.path
        ∷ (length s.blocked_by % 256 ∷ [])
        ∷ write_strings s.blocked_by
        ∷ write_string1 s.parent
        ∷ [])

unfoldable pub encode_summary_data : Summary → Result Bytes
unfolding summary_data
encode_summary_data s =
    let bytes = summary_data s in
    let checked = check_blocker_lengths s.blocked_by >>= λ _.
    if not (is_valid_type s.ticket_type)
    then err invalid_ticket_type
    else if not (is_valid_priority s.priority)
    then err invalid_ticket_prio
    else if ltb uint16_max (length bytes)
    then err entry_too_large
    else ok bytes in
    if ltb uint8_max (length s.id)
    then err id_too_long
    else if ltb uint8_max (length s.created)
    then err created_too_long
    else if ltb uint8_max (length s.closed)
    then err closed_too_long
    else if ltb uint8_max (length s.assignee)
    then err assignee_too_long
    else if ltb uint8_max (length s.parent)
    then err parent_too_long
    else if ltb uint16_max (length s.title)
    then err title_too_long
    else if ltb uint16_max (length s.path)
    then err path_too_long
    else if ltb uint8_max (length s.blocked_by)
    then err too_many_blockers
    else checked

unfoldable pub priority_to_uint8 : ℤ → Result ℕ
priority_to_uint8 (negsuc n) = err invalid_ticket_prio
priority_to_uint8 (pos p) = if ltb uint8_max p then err invalid_ticket_prio else ok p

-- The entry that `UpdateCacheEntry` puts into the map that it writes.
unfoldable pub cache_entry : Bytes → ℤ → Summary → Result RawCacheEntry
cache_entry filename mtime s = do
  bytes ← encode_summary_data s
  priority ← priority_to_uint8 s.priority
  ok (record {
    filename = filename;
    mtime = mtime;
    status = status_string_to_byte s.status;
    priority = priority;
    ticket_type = type_string_to_byte s.ticket_type;
    parent = s.parent;
    bytes = bytes;
  })

-- Reading takes bytes from the front. Past the end of the record it is `none`, where the source panics
-- or, for a text, may read on in the bytes behind the record.
abbrev pub read_then {ℓ κ} :
    {A : Type ℓ} {B : Type κ} → Option (A × Bytes) → (A → Bytes → Option B) → Option B
read_then none k = none
read_then (some (a, rest)) k = k a rest

abbrev pub read_byte : Bytes → Option (ℕ × Bytes)
read_byte [] = none
read_byte (b ∷ bytes) = some (b, bytes)

abbrev pub read_text : ℕ → Bytes → Option (Bytes × Bytes)
read_text n bytes = if leb n (length bytes) then some (take n bytes, drop n bytes) else none

unfoldable pub read_string1 : Bytes → Option (Bytes × Bytes)
read_string1 bytes = read_then (read_byte bytes) (λ n rest. read_text n rest)

unfoldable pub read_string2 : Bytes → Option (Bytes × Bytes)
read_string2 bytes =
    read_then (read_byte bytes)
      (λ low rest. read_then (read_byte rest) (λ high rest. read_text (low + 256 * high) rest))

unfoldable pub read_strings : ℕ → Bytes → Option (List Bytes × Bytes)
read_strings zero bytes = some ([], bytes)
read_strings (suc n) bytes =
    read_then (read_string1 bytes)
      (λ s rest. read_then (read_strings n rest) (λ ss rest. some (s ∷ ss, rest)))

unfoldable pub read_data_entry : RawCacheEntry → Option Summary
unfolding read_string1 read_string2 read_strings
read_data_entry e = read_then (read_byte e.bytes) (λ version d. read_then (read_string1 d) (λ id d.
    read_then (read_string2 d) (λ title d. read_then (read_string1 d) (λ created d.
      read_then (read_string1 d) (λ closed d. read_then (read_string1 d) (λ assignee d.
        read_then (read_string2 d) (λ path d. read_then (read_byte d) (λ count d.
          read_then (read_strings count d) (λ blocked_by d. read_then (read_string1 d) (λ parent d.
            some (record {
              schema_version = pos version;
              id = id;
              status = status_byte_to_string e.status;
              blocked_by = blocked_by;
              parent = parent;
              created = created;
              ticket_type = type_byte_to_string e.ticket_type;
              priority = pos e.priority;
              assignee = assignee;
              closed = closed;
              title = title;
              path = path;
            })))))))))))
