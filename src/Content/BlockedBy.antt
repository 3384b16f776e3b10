-- ===== src/Content/BlockedBy.antt =====
-- `formatBlockedBy` and `parseBlockedByValue`, and the `blocked-by` line of a ticket.
use agent_task.Prelude.{
  ◌≡◌, ◌⊎◌, refl, ap, ◌∙◌, true, false, some, none, List, [], ◌∷◌, ◌++◌, map, inl, inr, arith, All,
  All-append,
}
use agent_task.Result.{ok, err, blocked_by_not_found}
use agent_task.Text.{
  Bytes, codes, equal, has_prefix-append, trim_prefix-append, has_suffix-append, trim_suffix-append,
  trim_space, trim_space-blank, trim_space_brackets, split, join, split_part, split_front,
  push_first, Lacks,
}
use agent_task.Content.Edits.{IsField, clash, update_field_lem}
use agent_task.Content.{
  newline, blocked_by_prefix, get_field, format_blocked_by, parse_blocked_by, keep_ids,
  get_blocked_by, update_blocked_by,
}

-- An identifier that the list can hold.
pub record IsPlainId (id : Bytes) : Type 0 where
  pub not_empty : equal id [] ≡ false
  pub no_comma : Lacks b',' id
  pub no_newline : Lacks newline id
  pub trimmed : trim_space id ≡ id

blanked : Bytes → Bytes
blanked id = 0x20 ∷ id

split_blank : (s : Bytes) → split (0x20 ∷ s) b',' ≡ push_first 0x20 (split s b',')
unfolding split
split_blank s = refl

split-join_blank :
    (id : Bytes) (ids : List Bytes)
    → All IsPlainId (id ∷ ids)
    → split (join (id ∷ ids) (codes ", ")) b',' ≡ id ∷ map blanked ids
unfolding join blanked
split-join_blank id [] (h, hs) = split_part id b',' h.no_comma
split-join_blank id (next ∷ ids) (h, hs) =
    split_front id (0x20 ∷ join (next ∷ ids) (codes ", ")) b',' h.no_comma
    ∙ ap (◌∷◌ id) (
        split_blank (join (next ∷ ids) (codes ", "))
        ∙ ap (push_first 0x20) (split-join_blank next ids hs))

keep_ids-blanked : (ids : List Bytes) → All IsPlainId ids → keep_ids (map blanked ids) ≡ ids
unfolding keep_ids blanked
keep_ids-blanked [] h = refl
keep_ids-blanked (id ∷ ids) (h, hs) =
    rw (trim_space-blank id, h.trimmed, h.not_empty) (ap (◌∷◌ id) (keep_ids-blanked ids hs))

keep_ids_plain :
    (id : Bytes) (ids : List Bytes)
    → All IsPlainId (id ∷ ids)
    → keep_ids (id ∷ map blanked ids) ≡ id ∷ ids
unfolding keep_ids
keep_ids_plain id ids (h, hs) = rw (h.trimmed, h.not_empty) (ap (◌∷◌ id) (keep_ids-blanked ids hs))

abbrev inner_of : List Bytes → Bytes
inner_of ids = join ids (codes ", ")

-- What stands between the brackets begins with the first identifier, which is not empty.
inner-ne-nil :
    (id : Bytes) (ids : List Bytes) → IsPlainId id → equal (inner_of (id ∷ ids)) [] ≡ false
unfolding join equal
inner-ne-nil [] ids h = cc h.not_empty
inner-ne-nil (c ∷ id) [] h = refl
inner-ne-nil (c ∷ id) (next ∷ ids) h = refl

not_brackets :
    (s : Bytes) → equal s [] ≡ false → equal (codes "[" ++ (s ++ codes "]")) (codes "[]") ≡ false
unfolding equal
not_brackets [] h = cc
not_brackets (c ∷ []) h = ground arith
not_brackets (c ∷ d ∷ s) h = ground arith

-- Reading a list in brackets comes down to splitting what stands between them.
parse_inner :
    (s : Bytes)
    → equal s [] ≡ false
    → parse_blocked_by (codes "[" ++ (s ++ codes "]")) ≡ ok (keep_ids (split s b','))
unfolding parse_blocked_by
parse_inner s h = ground (
  arith,
  trim_space_brackets s,
  not_brackets s h,
  not_empty,
  has_prefix-append (codes "[") (s ++ codes "]"),
  has_suffix-append (codes "[" ++ s) (codes "]"),
  trim_suffix-append (codes "[" ++ s) (codes "]"),
  trim_prefix-append (codes "[") s,
)
  where
    not_empty : equal (codes "[" ++ (s ++ codes "]")) [] ≡ false
    not_empty = unfold equal in refl

-- Reading a printed list gives the list back.
pub parse_blocked_by-format :
    (ids : List Bytes) → All IsPlainId ids → parse_blocked_by (format_blocked_by ids) ≡ ok ids
unfolding format_blocked_by
parse_blocked_by-format [] h = unfold parse_blocked_by equal trim_space in refl
parse_blocked_by-format (id ∷ ids) h =
    parse_inner (inner_of (id ∷ ids)) (inner-ne-nil id ids h.0)
    ∙ ap ok (ap keep_ids (split-join_blank id ids h) ∙ keep_ids_plain id ids h)

newline_free :
    (id : Bytes) (ids : List Bytes) → All IsPlainId (id ∷ ids) → Lacks newline (inner_of (id ∷ ids))
unfolding join
newline_free id [] (h, hs) = h.no_newline
newline_free id (next ∷ ids) (h, hs) =
    All-append _ id (codes ", " ++ inner_of (next ∷ ids)) h.no_newline
      (refl, (refl, newline_free next ids hs))

format-IsField :
    (ids : List Bytes) → All IsPlainId ids → IsField blocked_by_prefix (format_blocked_by ids)
unfolding format_blocked_by equal
format-IsField [] h = record { one_line = ground arith; inside = refl }
format-IsField (id ∷ ids) h = record {
  one_line =
      All-append _ (codes "blocked-by: [") (inner_of (id ∷ ids) ++ codes "]") (ground arith)
        (All-append _ (inner_of (id ∷ ids)) (codes "]") (newline_free id ids h) (ground arith));
  inside = refl;
}

get_blocked_by-reads :
    (content : Bytes) (ids : List Bytes)
    → All IsPlainId ids
    → get_field blocked_by_prefix content ≡ some (format_blocked_by ids)
    → get_blocked_by content ≡ ok ids
unfolding get_blocked_by
get_blocked_by-reads content ids h e = rw (e, get_blocked_by) (parse_blocked_by-format ids h)

-- `UpdateBlockedByInContent` fails exactly on a text with no `blocked-by` line. Otherwise the new
-- text has the new list on that line and reads as it, and every field with another prefix reads as before.
pub update_blocked_by_lem :
    (content : Bytes) (ids : List Bytes)
    → All IsPlainId ids
    → ((get_field blocked_by_prefix content ≡ none)
        × (update_blocked_by content ids ≡ err blocked_by_not_found))
      ⊎ ((old changed : Bytes) × (get_field blocked_by_prefix content ≡ some old)
          × (update_blocked_by content ids ≡ ok changed)
          × (get_field blocked_by_prefix changed ≡ some (format_blocked_by ids))
          × (get_blocked_by changed ≡ ok ids)
          × ((q : Bytes)
              → clash blocked_by_prefix q ≡ true
              → get_field q changed ≡ get_field q content))
unfolding update_blocked_by
update_blocked_by_lem content ids h =
    elim (update_field_lem blocked_by_prefix blocked_by_not_found content (format_blocked_by ids)
      (format-IsField ids h)) [
        | inl missing ↦ inl missing
        | inr (old, changed, found, done, edits) ↦ inr (
          old,
          changed,
          found,
          done,
          edits.reads,
          get_blocked_by-reads changed ids h edits.reads,
          edits.keeps,
        )
      ]
