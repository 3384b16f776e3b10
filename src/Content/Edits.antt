-- ===== src/Content/Edits.antt =====
-- What an edit of one field does to the lines of a ticket, and to what the readers return.
use agent_task.Prelude.{
  ◌+◌, ◌≡◌, ◌⊎◌, sym, ap, ◌∙◌, Bool, true, false, none, some, List, [], ◌∷◌, ◌++◌, inl, inr, arith,
  ◌==◌, if◌then◌else◌, length, set, All, set-append, All-append, All-append_left, All-append_right,
}
use mathlib.Core.List.{append-ne-nil_of_right_ne-nil, cons-ne-nil}
use agent_task.Result.{Error, ok, err}
use agent_task.Text.{
  Bytes, equal, has_prefix, trim_prefix, has_prefix-append, trim_prefix-append, Lacks, split-Lacks,
  split-join,
}
use agent_task.Content.Locate.{
  IsHit, Found, field_value-append, line_index-append, field_value-hit, line_index-hit,
  search_cases,
}
use agent_task.Content.{
  newline, delimiter, lines_of, join_lines, field_value, line_index, get_field, update_field,
}

-- The two prefixes differ at a place that both have, so no line has both.
unfoldable pub clash : Bytes → Bytes → Bool
clash [] q = false
clash (x ∷ p) [] = false
clash (x ∷ p) (y ∷ q) = if x == y then clash p q else true

pub clash-has_prefix :
    (p q s : Bytes) → clash p q ≡ true → has_prefix s p ≡ true → has_prefix s q ≡ false
unfolding clash has_prefix
clash-has_prefix (x ∷ p) (y ∷ q) (z ∷ s) h k = ground (arith, clash-has_prefix p q s)
clash-has_prefix _ _ _ h k = ground arith

-- What a line `prefix ++ value` needs to be found again.
pub record IsField (prefix value : Bytes) : Type 0 where
  pub one_line : Lacks newline (prefix ++ value)
  pub inside : equal (prefix ++ value) delimiter ≡ false

pub IsField-IsHit : {p v : Bytes} → IsField p v → IsHit p (p ++ v)
IsField-IsHit {p} {v} f = record { inside = f.inside; starts = has_prefix-append p v }

-- A line that is no delimiter and lacks the prefix plays no part.
pub field_value-skip :
    (prefix : Bytes) (before after : List Bytes) (line : Bytes) (b : Bool)
    → equal line delimiter ≡ false
    → has_prefix line prefix ≡ false
    → field_value prefix b (before ++ line ∷ after) ≡ field_value prefix b (before ++ after)
unfolding field_value
field_value-skip p [] after line b h k = ground arith
field_value-skip p (l ∷ ls) after line b h k =
    ground (arith, field_value-skip p ls after line true, field_value-skip p ls after line b)

-- Lines without a newline come back from the text that they are joined to.
pub lines_of-join :
    (before after : List Bytes) (line : Bytes)
    → All (Lacks newline) (before ++ line ∷ after)
    → lines_of (join_lines (before ++ line ∷ after)) ≡ before ++ line ∷ after
lines_of-join before after line h =
    split-join (before ++ line ∷ after) newline
      (append-ne-nil_of_right_ne-nil before (cons-ne-nil line after)) h

-- The lines of a content keep that property when one of them is replaced.
replaced-Lacks :
    (content : Bytes) (before after : List Bytes) (old line : Bytes)
    → lines_of content ≡ before ++ old ∷ after
    → Lacks newline line
    → All (Lacks newline) (before ++ line ∷ after)
replaced-Lacks content before after old line s h =
    let all_lines : All (Lacks newline) (before ++ old ∷ after) =
      rw s at (split-Lacks content newline) in
    All-append (Lacks newline) before (line ∷ after)
      (All-append_left (Lacks newline) before (old ∷ after) all_lines)
      (h, (All-append_right (Lacks newline) before (old ∷ after) all_lines).1)

-- An update that succeeds has replaced the line that the readers find.
pub record Updated (prefix content value changed : Bytes) : Type 0 where
  pub found : Found prefix false (lines_of content)
  pub lines : lines_of changed ≡ found.before ++ (prefix ++ value) ∷ found.after

pub get_field-Found :
    (prefix content : Bytes) (f : Found prefix false (lines_of content))
    → get_field prefix content ≡ some (trim_prefix f.line prefix)
unfolding get_field
get_field-Found prefix content f = rw f.splits (
    field_value-append prefix f.before (f.line ∷ f.after) false true f.passed
    ∙ field_value-hit prefix f.line f.after f.hit)

pub line_index-Found :
    (prefix content : Bytes) (f : Found prefix false (lines_of content))
    → line_index prefix false 0 (lines_of content) ≡ some (length f.before)
line_index-Found prefix content f = rw f.splits (
    line_index-append prefix f.before (f.line ∷ f.after) false true 0 f.passed
    ∙ line_index-hit prefix f.line f.after (0 + length f.before) f.hit
    ∙ ap some (omega arith))

module _ (prefix content value : Bytes) (f : Found prefix false (lines_of content)) where
  -- The text behind an update of the line found.
  abbrev pub replaced_line : Bytes
  replaced_line = join_lines (f.before ++ (prefix ++ value) ∷ f.after)

  pub update_field-Found :
      (missing : Error) → update_field prefix missing content value ≡ ok replaced_line
  unfolding update_field
  update_field-Found missing =
      rw (line_index-Found prefix content f, update_field)
        (ap ok (
          ap join_lines (
            ap (λ ls. set ls (length f.before) (prefix ++ value)) f.splits
            ∙ set-append f.before f.after f.line (prefix ++ value))))

  pub lines_of-replaced :
      IsField prefix value → lines_of replaced_line ≡ f.before ++ (prefix ++ value) ∷ f.after
  lines_of-replaced field =
      lines_of-join f.before f.after (prefix ++ value)
        (replaced-Lacks content f.before f.after f.line (prefix ++ value) f.splits field.one_line)

  -- The loops find the new line where the old one was.
  unfoldable pub Found-replaced : IsField prefix value → Found prefix false (lines_of replaced_line)
  Found-replaced field = record {
    before = f.before;
    line = prefix ++ value;
    after = f.after;
    splits = lines_of-replaced field;
    passed = f.passed;
    hit = IsField-IsHit field;
  }

pub update_field_cases :
    (prefix : Bytes) (missing : Error) (content value : Bytes)
    → IsField prefix value
    → ((get_field prefix content ≡ none)
        × (update_field prefix missing content value ≡ err missing))
      ⊎ ((changed : Bytes) × (update_field prefix missing content value ≡ ok changed)
          × Updated prefix content value changed)
unfolding get_field update_field
update_field_cases prefix missing content value field =
    elim (search_cases prefix (lines_of content) false 0) [
      | inl (no_value, no_index) ↦ inl (no_value, rw (no_index, update_field))
      | inr f ↦ inr (
        replaced_line prefix content value f,
        update_field-Found prefix content value f missing,
        record { found = f; lines = lines_of-replaced prefix content value f field },
      )
    ]

-- What a reader of another field returns: no line of either text has both prefixes.
get_field-replaced :
    (prefix q content changed line : Bytes) (f : Found prefix false (lines_of content))
    → lines_of changed ≡ f.before ++ line ∷ f.after
    → IsHit prefix line
    → clash prefix q ≡ true
    → get_field q changed ≡ get_field q content
unfolding get_field
get_field-replaced prefix q content changed line f s hit h = rw s (
    field_value-skip q f.before f.after line false hit.inside
      (clash-has_prefix prefix q line h hit.starts)
    ∙ sym (
        field_value-skip q f.before f.after f.line false f.hit.inside
          (clash-has_prefix prefix q f.line h f.hit.starts))
    ∙ ap (field_value q false) (sym f.splits))

-- The field reads as the value, and every field with another prefix as before.
pub record Edits (prefix content value changed : Bytes) : Type 0 where
  pub reads : get_field prefix changed ≡ some value
  pub keeps : (q : Bytes) → clash prefix q ≡ true → get_field q changed ≡ get_field q content

pub Updated-Edits :
    {prefix content value changed : Bytes}
    → IsField prefix value
    → Updated prefix content value changed
    → Edits prefix content value changed
Updated-Edits {prefix} {content} {value} {changed} field u = record {
  reads =
      unfold get_field in
      rw u.lines (
        field_value-append prefix u.found.before ((prefix ++ value) ∷ u.found.after) false true
          u.found.passed
        ∙ field_value-hit prefix (prefix ++ value) u.found.after (IsField-IsHit field)
        ∙ ap some (trim_prefix-append prefix value));
  keeps = λ q h.
      get_field-replaced prefix q content changed (prefix ++ value) u.found u.lines
        (IsField-IsHit field) h;
}

-- An update of the line found reads as the value and keeps the other fields.
pub replaced-Edits :
    (prefix content value : Bytes) (f : Found prefix false (lines_of content))
    → IsField prefix value
    → Edits prefix content value (replaced_line prefix content value f)
replaced-Edits prefix content value f field =
    Updated-Edits field
      (record { found = f; lines = lines_of-replaced prefix content value f field })

-- Either the field is missing and the update fails, or it is there and is edited.
pub update_field_lem :
    (prefix : Bytes) (missing : Error) (content value : Bytes)
    → IsField prefix value
    → ((get_field prefix content ≡ none)
        × (update_field prefix missing content value ≡ err missing))
      ⊎ ((old changed : Bytes) × (get_field prefix content ≡ some old)
          × (update_field prefix missing content value ≡ ok changed)
          × Edits prefix content value changed)
update_field_lem prefix missing content value field =
    elim (update_field_cases prefix missing content value field) [
      | inl absent ↦ inl absent
      | inr (changed, e, u) ↦ inr (
        trim_prefix u.found.line prefix,
        changed,
        get_field-Found prefix content u.found,
        e,
        Updated-Edits field u,
      )
    ]
