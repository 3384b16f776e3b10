-- ===== src/Cache/RoundTrip.antt =====
-- Reading the record of a ticket gives back what was written.
use agent_task.Prelude.{
  ℕ, ◌+◌, ◌*◌, ◌/◌, ◌%◌, ◌≤◌, ◌≡◌, refl, sym, ap, ◌∙◌, Bool, true, false, not, some, List, [], ◌∷◌,
  ◌++◌, append_assoc, ltb, leb, if◌then◌else◌, length, length-append, take-append, drop-append, All,
  inl, inr, Bool-cases, arith, subst,
}
use agent_task.Result.{Error, Result, ok, err, >>=-eq-ok}
use agent_task.Text.{Bytes, ℤ, pos, negsuc}
use agent_task.Ticket.{Summary, is_valid_status, is_valid_type, is_valid_priority}
use agent_task.Cache.{
  priority_to_uint8, cache_entry, status_string_to_byte, status_byte_to_string, type_string_to_byte,
  type_byte_to_string, RawCacheEntry, uint8_max, uint16_max, write_string1, write_string2,
  write_strings, to_byte, check_blocker_lengths, summary_data, encode_summary_data, read_text,
  read_string1, read_string2, read_strings, read_data_entry,
}
use agent_task.Cache.Words.{
  status_byte_to_string-status_string_to_byte, type_byte_to_string-type_string_to_byte,
}

read_text-append : (s rest : Bytes) → read_text (length s) (s ++ rest) ≡ some (s, rest)
read_text-append s rest =
    let fits : leb (length s) (length (s ++ rest)) ≡ true = ground (arith, length-append s rest) in
    rw (fits, take-append s rest, drop-append s rest) refl

read_string1-write :
    (s rest : Bytes) → length s ≤ 255 → read_string1 (write_string1 s ++ rest) ≡ some (s, rest)
unfolding read_string1 write_string1
read_string1-write s rest h =
    let e : length s % 256 ≡ length s = omega (arith, h) in
    ap (λ n. read_text n (s ++ rest)) e ∙ read_text-append s rest

read_string2-write :
    (s rest : Bytes) → length s ≤ 65535 → read_string2 (write_string2 s ++ rest) ≡ some (s, rest)
unfolding read_string2 write_string2
read_string2-write s rest h =
    let e : length s % 256 + 256 * (length s / 256 % 256) ≡ length s = omega (arith, h) in
    ap (λ n. read_text n (s ++ rest)) e ∙ read_text-append s rest

abbrev IsShort : Bytes → Type 0
IsShort s = length s ≤ 255

read_strings-write :
    (ss : List Bytes) (rest : Bytes)
    → All IsShort ss
    → read_strings (length ss) (write_strings ss ++ rest) ≡ some (ss, rest)
unfolding read_strings write_strings
read_strings-write [] rest h = refl
read_strings-write (s ∷ ss) rest (h, hs) =
    rw
      (
        append_assoc (write_string1 s) (write_strings ss) rest,
        read_string1-write s (write_strings ss ++ rest) h,
        read_strings-write ss rest hs,
      )
      refl

-- What the checks of `encodeSummaryData` leave.
pub record IsStorable (s : Summary) : Type 0 where
  id : length s.id ≤ 255
  created : length s.created ≤ 255
  closed : length s.closed ≤ 255
  assignee : length s.assignee ≤ 255
  parent : length s.parent ≤ 255
  title : length s.title ≤ 65535
  path : length s.path ≤ 65535
  count : length s.blocked_by ≤ 255
  blockers : All IsShort s.blocked_by
  ticket_type : is_valid_type s.ticket_type ≡ true

pub went_on {ℓ} :
    {V : Type ℓ} (b : Bool) (x : Error) (m : Result V) {v : V}
    → (if b then err x else m) ≡ ok v
    → (b ≡ false) × (m ≡ ok v)
went_on true x m h = cc h
went_on false x m h = (refl, h)

pub at_most : (n limit : ℕ) → ltb limit n ≡ false → n ≤ limit
at_most n limit h = ground arith

blockers_fit :
    (ids : List Bytes) (u : Unit {0}) → check_blocker_lengths ids ≡ ok u → All IsShort ids
unfolding check_blocker_lengths
blockers_fit [] u h = tt
blockers_fit (b ∷ ids) u h = elim (Bool-cases (ltb uint8_max (length b))) [
  | inl long ↦ cc (rw long at h)
  | inr short ↦ (at_most (length b) 255 short, blockers_fit ids u (rw short at h))
]

pub encode-IsStorable :
    (s : Summary) (bytes : Bytes)
    → encode_summary_data s ≡ ok bytes
    → IsStorable s × (summary_data s ≡ bytes)
unfolding encode_summary_data
encode-IsStorable s bytes h =
    let (id, h1) = went_on (ltb uint8_max (length s.id)) _ _ h in
    let (created, h2) = went_on (ltb uint8_max (length s.created)) _ _ h1 in
    let (closed, h3) = went_on (ltb uint8_max (length s.closed)) _ _ h2 in
    let (assignee, h4) = went_on (ltb uint8_max (length s.assignee)) _ _ h3 in
    let (parent, h5) = went_on (ltb uint8_max (length s.parent)) _ _ h4 in
    let (title, h6) = went_on (ltb uint16_max (length s.title)) _ _ h5 in
    let (path, h7) = went_on (ltb uint16_max (length s.path)) _ _ h6 in
    let (count, h8) = went_on (ltb uint8_max (length s.blocked_by)) _ _ h7 in
    let (u, checked, h9) = >>=-eq-ok (check_blocker_lengths s.blocked_by) _ h8 in
    let (known, h10) = went_on (not (is_valid_type s.ticket_type)) _ _ h9 in
    let (_, h11) = went_on (not (is_valid_priority s.priority)) _ _ h10 in
    let (_, h12) = went_on (ltb uint16_max (length (summary_data s))) _ _ h11 in
    (
      record {
        id = at_most (length s.id) 255 id;
        created = at_most (length s.created) 255 created;
        closed = at_most (length s.closed) 255 closed;
        assignee = at_most (length s.assignee) 255 assignee;
        parent = at_most (length s.parent) 255 parent;
        title = at_most (length s.title) 65535 title;
        path = at_most (length s.path) 65535 path;
        count = at_most (length s.blocked_by) 255 count;
        blockers = blockers_fit s.blocked_by u checked;
        ticket_type = ground arith;
      },
      cc h12,
    )

priority_to_uint8-ok : (p : ℤ) (n : ℕ) → priority_to_uint8 p ≡ ok n → pos n ≡ p
unfolding priority_to_uint8
priority_to_uint8-ok (negsuc k) n h = cc h
priority_to_uint8-ok (pos p) n h = elim (Bool-cases (ltb uint8_max p)) [
  | inl long ↦ cc (rw long at h)
  | inr short ↦ let same : p ≡ n = cc (rw short at h) in ap pos (sym same)
]

-- Reading the data of a ticket whose texts fit.
read_summary_data :
    (s : Summary) (e : RawCacheEntry) (v : ℕ)
    → IsStorable s
    → s.schema_version ≡ pos v
    → v ≤ 255
    → e.bytes ≡ summary_data s
    → status_byte_to_string e.status ≡ s.status
    → type_byte_to_string e.ticket_type ≡ s.ticket_type
    → pos e.priority ≡ s.priority
    → read_data_entry e ≡ some s
unfolding read_data_entry summary_data
read_summary_data s e v k is_v small is_bytes status ticket_type priority =
    let d1 = write_string1 s.parent ++ [] in
    let d2 = write_strings s.blocked_by ++ d1 in
    let d3 = length s.blocked_by % 256 ∷ d2 in
    let d4 = write_string2 s.path ++ d3 in
    let d5 = write_string1 s.assignee ++ d4 in
    let d6 = write_string1 s.closed ++ d5 in
    let d7 = write_string1 s.created ++ d6 in
    let d8 = write_string2 s.title ++ d7 in
    let count : length s.blocked_by % 256 ≡ length s.blocked_by = omega (arith, k.count) in
    let version : pos (to_byte s.schema_version) ≡ s.schema_version =
      let same : v % 256 ≡ v = omega (arith, small) in
      ap (λ z. pos (to_byte z)) is_v ∙ ap pos same ∙ sym is_v in
    rw
      (
        is_bytes,
        read_string1-write s.id d8 k.id,
        read_string2-write s.title d7 k.title,
        read_string1-write s.created d6 k.created,
        read_string1-write s.closed d5 k.closed,
        read_string1-write s.assignee d4 k.assignee,
        read_string2-write s.path d3 k.path,
        count,
        read_strings-write s.blocked_by d1 k.blockers,
        read_string1-write s.parent [] k.parent,
      )
      (λ i. some (record {
        schema_version = version i;
        id = s.id;
        status = status i;
        blocked_by = s.blocked_by;
        parent = s.parent;
        created = s.created;
        ticket_type = ticket_type i;
        priority = priority i;
        assignee = s.assignee;
        closed = s.closed;
        title = s.title;
        path = s.path;
      }))

-- The cache gives back the summary that an entry was made of, if its status is valid and its version
-- fits a byte.
pub read_data_entry-cache_entry :
    (filename : Bytes) (mtime : ℤ) (s : Summary) (e : RawCacheEntry) (v : ℕ)
    → is_valid_status s.status ≡ true
    → s.schema_version ≡ pos v
    → v ≤ 255
    → cache_entry filename mtime s ≡ ok e
    → read_data_entry e ≡ some s
unfolding cache_entry
read_data_entry-cache_entry filename mtime s e v valid is_v small h =
    let (bytes, encoded, h1) = >>=-eq-ok (encode_summary_data s) _ h in
    let (n, fits, h2) = >>=-eq-ok (priority_to_uint8 s.priority) _ h1 in
    let (k, same) = encode-IsStorable s bytes encoded in
    let made : record {
      filename = filename;
      mtime = mtime;
      status = status_string_to_byte s.status;
      priority = n;
      ticket_type = type_string_to_byte s.ticket_type;
      parent = s.parent;
      bytes = bytes;
    }
        ≡ e =
      cc h2 in
    subst (λ f. read_data_entry f ≡ some s) made
      (read_summary_data s _ v k is_v small (sym same)
        (status_byte_to_string-status_string_to_byte s.status valid)
        (type_byte_to_string-type_string_to_byte s.ticket_type k.ticket_type)
        (priority_to_uint8-ok s.priority n fits))
