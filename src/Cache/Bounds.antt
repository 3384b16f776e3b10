-- ===== src/Cache/Bounds.antt =====
-- What `LoadBinaryCache` has checked of a file keeps the search and the readers within it, whatever
-- the file holds.
use agent_task.Prelude.{
  ℕ, zero, suc, ◌+◌, ◌-◌, ◌*◌, ◌/◌, ◌≤◌, ◌<◌, ◌≡◌, refl, sym, ap, true, not, Option, none, some, [],
  ◌∷◌, ltb, leb, ◌==◌, length, inl, inr, Bool-cases, arith, take, drop, length-drop, drop_nothing,
  subst,
}
use agent_task.Result.{ok}
use agent_task.Text.{Bytes, equal, get_le, ℤ, pos, negsuc}
use agent_task.Cache.{RawCacheEntry}
use agent_task.Cache.Slices.{slice_from, slice_inside, get_elem?_inside, until_zero}
use agent_task.Cache.File.{
  BinaryCache, bytes_at, entry_offset, in_bounds, all_in_bounds, load_binary_cache, read_filename,
  read_index_entry, read_raw_entry, compare_strings, mtime_of, switch, search_loop, binary_search,
  cache_magic, uint32_max,
}
use agent_task.Cache.RoundTrip.{went_on}

all_in_bounds-at :
    (buf : Bytes) (n i j : ℕ)
    → all_in_bounds buf n i ≡ true
    → i ≤ j
    → j < i + n
    → in_bounds buf j ≡ true
unfolding all_in_bounds
all_in_bounds-at buf zero i j h from to = absurd (omega (arith, from, to))
all_in_bounds-at buf (suc n) i j h from to = elim (Bool-cases (ltb i j)) [
  | inl later ↦ all_in_bounds-at buf n (i + 1) j (ground arith) (ground arith) (ground arith)
  | inr here ↦
      let same : i ≡ j = ground arith in subst (λ k. in_bounds buf k ≡ true) same (ground arith)
]

drop-drop : (n m : ℕ) (buf : Bytes) → drop m (drop n buf) ≡ drop (n + m) buf
drop-drop zero m buf = let here : 0 + m ≡ m = omega arith in rw here refl
drop-drop (suc n) m [] =
    let next : suc n + m ≡ suc (n + m) = omega arith in rw next (drop_nothing m)
drop-drop (suc n) m (b ∷ buf) =
    let next : suc n + m ≡ suc (n + m) = omega arith in rw next (drop-drop n m buf)

-- Any file that loads.
module _ (buf : Bytes) (c : BinaryCache) (loaded : load_binary_cache (some buf) ≡ ok c) where
  load-inv :
      (buf ≡ c.buf)
      × (32 + c.entry_count * 68 ≤ length c.buf)
      × ((i : ℕ) → i < c.entry_count → in_bounds c.buf i ≡ true)
  unfolding load_binary_cache
  load-inv =
      let n = get_le (bytes_at 6 4 buf) in
      let (_, h1) = went_on (ltb (length buf) 32) _ _ loaded in
      let (_, h2) = went_on (not (equal (bytes_at 0 4 buf) cache_magic)) _ _ h1 in
      let (_, h3) = went_on (not (get_le (bytes_at 4 2 buf) == 6)) _ _ h2 in
      let (covers, h4) = went_on (ltb (length buf) (32 + n * 68)) _ _ h3 in
      let (_, h5) = went_on (ltb uint32_max (length buf)) _ _ h4 in
      let (within, h6) = went_on (not (all_in_bounds buf n 0)) _ _ h5 in
      let is : record { buf = buf; entry_count = n } ≡ c = cc h6 in
      let checked : all_in_bounds buf n 0 ≡ true = ground arith in
      subst
        (λ (d : BinaryCache).
          (buf ≡ d.buf)
          × (32 + d.entry_count * 68 ≤ length d.buf)
          × ((i : ℕ) → i < d.entry_count → in_bounds d.buf i ≡ true))
        is
        (
          refl,
          ground arith,
          λ i h. all_in_bounds-at buf n 0 i checked (omega arith) (omega (arith, h)),
        )

  read_filename-inside :
      (i : ℕ) → i < c.entry_count → (name : Bytes) × (read_filename c i ≡ some name)
  unfolding read_filename
  read_filename-inside i h =
      let (_, covers, _) = load-inv in
      (
        until_zero (bytes_at (entry_offset i) 32 c.buf),
        rw (slice_inside (entry_offset i) 32 c.buf (omega (arith, covers, h))) refl,
      )

  -- Each entry that the header counts is read without a panic.
  pub read_raw_entry-inside :
      (i : ℕ) → i < c.entry_count → (e : RawCacheEntry) × (read_raw_entry c i ≡ some e)
  unfolding read_raw_entry read_index_entry slice_from in_bounds
  read_raw_entry-inside i h =
      let (_, covers, within) = load-inv in
      let entry = drop (entry_offset i) c.buf in
      let size : 68 ≤ length entry = omega (arith, length-drop (entry_offset i) c.buf, covers, h) in
      let starts : leb (entry_offset i) (length c.buf) ≡ true = ground (arith, covers, h) in
      let (status, at_status) = get_elem?_inside 46 entry (omega (arith, size)) in
      let (priority, at_priority) = get_elem?_inside 47 entry (omega (arith, size)) in
      let (kind, at_kind) = get_elem?_inside 48 entry (omega (arith, size)) in
      let offset = get_le (bytes_at 40 4 entry) in
      let len = get_le (bytes_at 44 2 entry) in
      let inside : offset + len ≤ length c.buf =
        let same_offset : get_le (bytes_at (entry_offset i + 40) 4 c.buf) ≡ offset =
          ap (λ d. get_le (take 4 d)) (sym (drop-drop (entry_offset i) 40 c.buf)) in
        let same_len : get_le (bytes_at (entry_offset i + 44) 2 c.buf) ≡ len =
          ap (λ d. get_le (take 2 d)) (sym (drop-drop (entry_offset i) 44 c.buf)) in
        let checked = rw (same_offset, same_len) at (within i h) in ground arith in
      (
        record {
          filename = until_zero (bytes_at 0 32 entry);
          mtime = mtime_of (get_le (bytes_at 32 8 entry));
          status = status;
          priority = priority;
          ticket_type = kind;
          parent = until_zero (bytes_at 49 12 entry);
          bytes = bytes_at offset len c.buf;
        },
        rw
            (
              starts,
              slice_inside 0 32 entry (omega (arith, size)),
              slice_inside 32 8 entry (omega (arith, size)),
              slice_inside 49 12 entry (omega (arith, size)),
              slice_inside 40 4 entry (omega (arith, size)),
              slice_inside 44 2 entry (omega (arith, size)),
              at_status,
              at_priority,
              at_kind,
              slice_inside offset len c.buf inside,
            )
            refl,
      )

  abbrev Within : Option (Option ℕ) → Type 0
  Within none = ⊥
  Within (some none) = Unit
  Within (some (some i)) = i < c.entry_count

  switch-Within :
      (compared : ℤ) (same below above : Option (Option ℕ))
      → Within same
      → Within below
      → Within above
      → Within (switch compared same below above)
  switch-Within (pos zero) same below above s b a = s
  switch-Within (negsuc n) same below above s b a = b
  switch-Within (pos (suc n)) same below above s b a = a

  search_loop-Within :
      (name : Bytes) (fuel low end : ℕ)
      → end ≤ c.entry_count
      → low ≤ end
      → end < low + fuel
      → Within (search_loop c name fuel low end)
  unfolding search_loop
  search_loop-Within name zero low end inside order enough = absurd (omega (arith, order, enough))
  search_loop-Within name (suc fuel) low end inside order enough = elim (Bool-cases (ltb low end)) [
    | inl go ↦
        let mid = (low + (end - 1)) / 2 in
        let in_index : mid < c.entry_count = ground arith in
        let (mid_name, at) = read_filename-inside mid in_index in
        rw (go, at)
          (switch-Within (compare_strings name mid_name) (some (some mid)) _ _ in_index
            (search_loop-Within name fuel low mid (ground arith) (ground arith) (ground arith))
            (search_loop-Within name fuel (mid + 1) end inside (ground arith) (ground arith)))
    | inr stop ↦ rw stop tt
  ]

  returned :
      (r : Option (Option ℕ))
      → Within r
      → (found : Option ℕ) × (r ≡ some found) × ((i : ℕ) → found ≡ some i → i < c.entry_count)
  returned none w = absurd w
  returned (some none) w = (none, refl, λ i h. cc h)
  returned (some (some j)) w =
      (some j, refl, λ i h. (let same : j ≡ i = cc h in subst (λ k. k < c.entry_count) same w))

  -- The search ends within its fuel, without a panic, with -1 or an index that the header counts.
  pub binary_search-Returns :
      (name : Bytes)
      → (r : Option ℕ) × (binary_search c name ≡ some r)
        × ((i : ℕ) → r ≡ some i → i < c.entry_count)
  unfolding binary_search
  binary_search-Returns name = returned (binary_search c name) (
      search_loop-Within name (c.entry_count + 1) 0 c.entry_count (omega arith) (omega arith)
        (omega arith))
