-- ===== src/Cache/Deleting.antt =====
-- Deleting from the entries of a written file.
use agent_task.Prelude.{
  ℕ, ◌+◌, ◌≤◌, ◌≡◌, refl, sym, ap, ◌∙◌, true, false, not, none, some, List, [], ◌∷◌, ltb, leb,
  if◌then◌else◌, length, length-append, inl, inr, Bool-cases, arith, All, all, map,
}
use agent_task.Result.{ok}
use agent_task.Text.{Bytes, equal, equal_iff, equal_comm, less, less_irrefl, less_trans}
use agent_task.Cache.{RawCacheEntry, read_data_entry, uint16_max}
use agent_task.Cache.File.{uint32_max}
use agent_task.Cache.Writer.{
  insert_entry, sort_entries, check_sizes, is_negative, data_section, find_entry,
}
use agent_task.Cache.Fields.{as_stored, IsFitting}
use agent_task.Cache.Placed.{checked_sizes}
use agent_task.Cache.Sorted.{IsSorted, IsDistinct, All-map, less-unequal}
use agent_task.Cache.Lookup.{found, IsEntry}
use agent_task.Cache.Delete.{has_name, as_raw_map, delete_entry}

abbrev pub stored : List RawCacheEntry → List RawCacheEntry
stored entries = map as_stored entries

abbrev Below : RawCacheEntry → List RawCacheEntry → Type 0
Below e = All (λ f. less e.filename f.filename ≡ true)

Below-stored :
    (e : RawCacheEntry) (entries : List RawCacheEntry)
    → Below e entries
    → Below (as_stored e) (stored entries)
Below-stored e [] h = tt
Below-stored e (f ∷ entries) (h, hs) = (h, Below-stored e entries hs)

pub stored-IsSorted : (entries : List RawCacheEntry) → IsSorted entries → IsSorted (stored entries)
stored-IsSorted [] s = tt
stored-IsSorted (e ∷ entries) (h, s) = (Below-stored e entries h, stored-IsSorted entries s)

delete-All :
    (P : RawCacheEntry → Type 0) (name : Bytes) (entries : List RawCacheEntry)
    → All P entries
    → All P (delete_entry name entries)
unfolding delete_entry
delete-All P name [] h = tt
delete-All P name (e ∷ entries) (h, hs) = elim (Bool-cases (equal name e.filename)) [
  | inl same ↦ rw same (delete-All P name entries hs)
  | inr other ↦ rw other (h, delete-All P name entries hs)
]

pub delete-IsSorted :
    (name : Bytes) (entries : List RawCacheEntry)
    → IsSorted entries
    → IsSorted (delete_entry name entries)
unfolding delete_entry
delete-IsSorted name [] s = tt
delete-IsSorted name (e ∷ entries) (h, s) = elim (Bool-cases (equal name e.filename)) [
  | inl same ↦ rw same (delete-IsSorted name entries s)
  | inr other ↦ rw other (delete-All _ name entries h, delete-IsSorted name entries s)
]

unequal : (a b : Bytes) → less a b ≡ true → equal a b ≡ false
unequal a b h = equal_comm a b ∙ less-unequal a b h

pub IsSorted-IsDistinct : (entries : List RawCacheEntry) → IsSorted entries → IsDistinct entries
IsSorted-IsDistinct [] s = tt
IsSorted-IsDistinct (e ∷ entries) (h, s) =
    (All-map _ _ entries (λ f k. unequal e.filename f.filename k) h, IsSorted-IsDistinct entries s)

-- Sorted entries stay as they are.
sort-sorted_first :
    (e : RawCacheEntry) (entries : List RawCacheEntry)
    → Below e entries
    → insert_entry e entries ≡ e ∷ entries
unfolding insert_entry
sort-sorted_first e [] h = refl
sort-sorted_first e (f ∷ entries) (h, hs) =
    let not_below : less f.filename e.filename ≡ false =
      elim (Bool-cases (less f.filename e.filename)) [
        | inl below ↦
            cc (less_trans e.filename f.filename e.filename h below, less_irrefl e.filename)
        | inr other ↦ other
      ] in
    rw not_below refl

pub sort-sorted : (entries : List RawCacheEntry) → IsSorted entries → sort_entries entries ≡ entries
unfolding sort_entries
sort-sorted [] s = refl
sort-sorted (e ∷ entries) (h, s) =
    ap (insert_entry e) (sort-sorted entries s) ∙ sort-sorted_first e entries h

has_name-distinct :
    (name : Bytes) (entries : List RawCacheEntry)
    → All (λ f. equal name f.filename ≡ false) entries
    → has_name name entries ≡ false
has_name-distinct name [] h = refl
has_name-distinct name (e ∷ entries) (h, hs) = rw h (has_name-distinct name entries hs)

pub as_raw_map-distinct :
    (entries : List RawCacheEntry) → IsDistinct entries → as_raw_map entries ≡ entries
unfolding as_raw_map
as_raw_map-distinct [] d = refl
as_raw_map-distinct (e ∷ entries) (h, d) =
    rw (has_name-distinct e.filename entries h) (ap (◌∷◌ e) (as_raw_map-distinct entries d))

-- Fewer entries, further in front, still have sizes that fit.
pub check_sizes-delete :
    (name : Bytes) (entries : List RawCacheEntry) (start near : ℕ)
    → near ≤ start
    → check_sizes start entries ≡ ok tt
    → check_sizes near (delete_entry name (stored entries)) ≡ ok tt
unfolding check_sizes delete_entry
check_sizes-delete name [] start near k h = refl
check_sizes-delete name (e ∷ entries) start near k h =
    let (short, small, later) = checked_sizes start e entries h in
    elim (Bool-cases (equal name e.filename)) [
      | inl same ↦
          rw same
            (check_sizes-delete name entries (start + length e.bytes) near (omega (arith, k)) later)
      | inr other ↦
          let fits : ltb uint16_max (length e.bytes) ≡ false = ground arith in
          let reached : ltb uint32_max near ≡ false = ground arith in
          rw (other, fits, reached)
            (check_sizes-delete name entries (start + length e.bytes) (near + length e.bytes)
              (omega (arith, k)) later)
    ]

pub length-delete :
    (name : Bytes) (entries : List RawCacheEntry)
    → length (delete_entry name (stored entries)) ≤ length entries
unfolding delete_entry
length-delete name [] = omega arith
length-delete name (e ∷ entries) = ground (arith, length-delete name entries)

pub length-data-delete :
    (name : Bytes) (entries : List RawCacheEntry)
    → length (data_section (delete_entry name (stored entries))) ≤ length (data_section entries)
unfolding delete_entry data_section
length-data-delete name [] = omega arith
length-data-delete name (e ∷ entries) = elim (Bool-cases (equal name e.filename)) [
  | inl same ↦
      rw same (
        omega
          (arith, length-data-delete name entries, length-append e.bytes (data_section entries)))
  | inr other ↦ rw other (
      omega (
        arith,
        length-data-delete name entries,
        length-append e.bytes (data_section entries),
        length-append e.bytes (data_section (delete_entry name (stored entries))),
      ))
]

-- What a lookup finds behind the deletion.
pub found-delete :
    (name other : Bytes) (entries : List RawCacheEntry)
    → found (find_entry other (delete_entry name (stored entries)))
      ≡ (if equal other name then some none else found (find_entry other entries))
unfolding delete_entry find_entry read_data_entry
found-delete name other [] = elim (Bool-cases (equal other name)) [
  | inl same ↦ rw same refl
  | inr unlike ↦ rw unlike refl
]
found-delete name other (e ∷ entries) = elim (Bool-cases (equal name e.filename)) [
  | inl gone ↦
      let match : equal other e.filename ≡ equal other name =
        ap (equal other) (sym ((equal_iff name e.filename).0 gone)) in
      elim (Bool-cases (equal other name)) [
        | inl same ↦ rw (gone, same) (found-delete name other entries ∙ rw same refl)
        | inr unlike ↦ rw (gone, match, unlike) (found-delete name other entries ∙ rw unlike refl)
      ]
  | inr kept ↦ elim (Bool-cases (equal other e.filename)) [
    | inl here ↦
        let apart : equal other name ≡ false =
          ap (λ n. equal n name) ((equal_iff other e.filename).0 here)
          ∙ equal_comm e.filename name
          ∙ kept in
        rw (kept, here, apart) refl
    | inr past ↦ rw (kept, past) (found-delete name other entries)
  ]
]

pub delete-IsEntry :
    (name : Bytes) (entries : List RawCacheEntry)
    → All IsFitting entries
    → All IsEntry (delete_entry name (stored entries))
      × (all (λ e. leb (length e.filename) 32) (delete_entry name (stored entries)) ≡ true)
      × (all (λ e. not (is_negative e.mtime)) (delete_entry name (stored entries)) ≡ true)
unfolding delete_entry
delete-IsEntry name [] h = (tt, refl, refl)
delete-IsEntry name (e ∷ entries) (k, h) =
    let (made, names, times) = delete-IsEntry name entries h in
    elim (Bool-cases (equal name e.filename)) [
      | inl same ↦ rw same (made, names, times)
      | inr other ↦
          let short : leb (length e.filename) 32 ≡ true = ground (arith, k.short_name) in
          rw (other, short, k.since, names, times)
            (
              (record { plain_name = k.plain_name; until = k.until; filled = k.filled }, made),
              refl,
              refl,
            )
    ]
