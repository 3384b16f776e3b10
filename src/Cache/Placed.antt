-- ===== src/Cache/Placed.antt =====
-- Where an entry of a written file stands: its index entry, and its data.
use agent_task.Prelude.{
  ℕ, zero, suc, ◌+◌, ◌*◌, ◌≤◌, ◌≡◌, refl, sym, ap, ◌∙◌, some, List, [], ◌∷◌, ◌++◌, append_assoc,
  ltb, length, length-append, get_elem?, inl, inr, Bool-cases, arith, subst,
}
use agent_task.Result.{ok}
use agent_task.Text.{Bytes, put_le}
use agent_task.Cache.{RawCacheEntry, uint16_max}
use agent_task.Cache.File.{uint32_max}
use agent_task.Cache.Writer.{
  padded, check_sizes, magnitude, index_bytes, index_section, data_section,
}
use agent_task.Cache.Padding.{length-padded}

-- The fields of an index entry behind its name, in front of a tail.
abbrev pub behind_name : ℕ → RawCacheEntry → Bytes → Bytes
behind_name offset e tail =
    put_le 8 (magnitude e.mtime)
    ++ (put_le 4 offset
        ++ (put_le 2 (length e.bytes)
            ++ (e.status
                ∷ e.priority
                ∷ e.ticket_type
                ∷ (padded 12 e.parent ++ (0 ∷ 0 ∷ 0 ∷ 0 ∷ 0 ∷ 0 ∷ 0 ∷ tail)))))

pub index_bytes-append :
    (offset : ℕ) (e : RawCacheEntry) (tail : Bytes)
    → index_bytes offset e ++ tail ≡ padded 32 e.filename ++ behind_name offset e tail
unfolding index_bytes put_le
index_bytes-append offset e tail =
    append_assoc (padded 32 e.filename) _ tail
    ∙ ap
        (λ d.
          padded 32 e.filename
          ++ (put_le 8 (magnitude e.mtime)
              ++ (put_le 4 offset
                  ++ (put_le 2 (length e.bytes) ++ (e.status ∷ e.priority ∷ e.ticket_type ∷ d)))))
        (append_assoc (padded 12 e.parent) _ tail)

pub length-index_bytes : (offset : ℕ) (e : RawCacheEntry) → length (index_bytes offset e) ≡ 68
unfolding index_bytes put_le
length-index_bytes offset e = omega (
  arith,
  length-append (padded 32 e.filename) (
      put_le 8 (magnitude e.mtime)
      ++ (put_le 4 offset
          ++ (put_le 2 (length e.bytes)
              ++ (e.status
                  ∷ e.priority
                  ∷ e.ticket_type
                  ∷ (padded 12 e.parent ++ (0 ∷ 0 ∷ 0 ∷ 0 ∷ 0 ∷ 0 ∷ 0 ∷ [])))))),
  length-append (padded 12 e.parent) (0 ∷ 0 ∷ 0 ∷ 0 ∷ 0 ∷ 0 ∷ 0 ∷ []),
  length-padded 32 e.filename,
  length-padded 12 e.parent,
)

pub length-index_section :
    (offset : ℕ) (entries : List RawCacheEntry)
    → length (index_section offset entries) ≡ length entries * 68
unfolding index_section
length-index_section offset [] = refl
length-index_section offset (e ∷ entries) = omega (
  arith,
  length-append (index_bytes offset e) (index_section (offset + length e.bytes) entries),
  length-index_bytes offset e,
  length-index_section (offset + length e.bytes) entries,
)

pub record IsPlaced (start : ℕ) (entries : List RawCacheEntry) (i : ℕ) (e : RawCacheEntry)
    : Type 0 where
  pub offset : ℕ
  pub front : Bytes
  pub rest : Bytes
  pub data_front : Bytes
  pub data_rest : Bytes
  pub indexed : index_section start entries ≡ front ++ (index_bytes offset e ++ rest)
  pub length_front : length front ≡ i * 68
  pub stored : data_section entries ≡ data_front ++ (e.bytes ++ data_rest)
  pub is_offset : offset ≡ start + length data_front
  pub small : offset ≤ 4294967295
  pub short : length e.bytes ≤ 65535

-- What the checks of the sizes leave.
pub checked_sizes :
    (start : ℕ) (e : RawCacheEntry) (entries : List RawCacheEntry)
    → check_sizes start (e ∷ entries) ≡ ok tt
    → (length e.bytes ≤ 65535)
      × (start ≤ 4294967295)
      × (check_sizes (start + length e.bytes) entries ≡ ok tt)
unfolding check_sizes
checked_sizes start e entries h = elim (Bool-cases (ltb uint16_max (length e.bytes))) [
  | inl long ↦ cc (rw long at h)
  | inr short ↦ elim (Bool-cases (ltb uint32_max start)) [
    | inl far ↦ cc (rw (short, far) at h)
    | inr near ↦ (ground arith, ground arith, rw (short, near) at h)
  ]
]

pub get-IsPlaced :
    (start : ℕ) (entries : List RawCacheEntry) (i : ℕ) (e : RawCacheEntry)
    → check_sizes start entries ≡ ok tt
    → get_elem? entries i ≡ some e
    → IsPlaced start entries i e
unfolding index_section data_section
get-IsPlaced start [] i e h g = cc g
get-IsPlaced start (x ∷ entries) zero e h g =
    let (short, small, _) = checked_sizes start x entries h in
    let same : x ≡ e = cc g in
    subst (IsPlaced start (x ∷ entries) 0) same (record {
      offset = start;
      front = [];
      rest = index_section (start + length x.bytes) entries;
      data_front = [];
      data_rest = data_section entries;
      indexed = refl;
      length_front = refl;
      stored = refl;
      is_offset = omega arith;
      small = small;
      short = short;
    })
get-IsPlaced start (x ∷ entries) (suc i) e h g =
    let (short, small, later) = checked_sizes start x entries h in
    let p = get-IsPlaced (start + length x.bytes) entries i e later g in
    record {
      offset = p.offset;
      front = index_bytes start x ++ p.front;
      rest = p.rest;
      data_front = x.bytes ++ p.data_front;
      data_rest = p.data_rest;
      indexed =
          ap (λ d. index_bytes start x ++ d) p.indexed
          ∙ sym (append_assoc (index_bytes start x) p.front (index_bytes p.offset e ++ p.rest));
      length_front = omega (
        arith,
        length-append (index_bytes start x) p.front,
        length-index_bytes start x,
        p.length_front,
      );
      stored =
          ap (λ d. x.bytes ++ d) p.stored
          ∙ sym (append_assoc x.bytes p.data_front (e.bytes ++ p.data_rest));
      is_offset = omega (arith, length-append x.bytes p.data_front, p.is_offset);
      small = p.small;
      short = p.short;
    }
