-- ===== src/Content/Insert.antt =====
-- A field that is added below the status line and removed again leaves the text as it was.
use agent_task.Prelude.{
  ◌+◌, ◌≡◌, ◌⊎◌, refl, sym, ap, ◌∙◌, Bool, true, false, none, some, List, [], ◌∷◌, ◌++◌,
  append_assoc, inl, inr, arith, length, drop, take, All, take-append, drop-append, length-append,
  All-append, All-append_left, All-append_right,
}
use agent_task.Result.{ok, err, field_insert_failed}
use agent_task.Text.{
  Bytes, codes, has_prefix-append, trim_prefix-append, Lacks, split-Lacks, join-split,
}
use agent_task.Content.Locate.{passes, Found, search_cases}
use agent_task.Content.Edits.{
  clash, clash-has_prefix, IsField, IsField-IsHit, field_value-skip, lines_of-join,
  line_index-Found, get_field-Found, Edits,
}
use agent_task.Content.{
  newline, status_prefix, lines_of, join_lines, field_value, get_field, add_field, remove_field,
}

-- The prefix that `add_field` and `remove_field` look for.
abbrev pub prefix_of : Bytes → Bytes
prefix_of field = field ++ codes ": "

-- Lines that one loop passes over, another passes over too, if it finds nothing there.
passes_both :
    (p q : Bytes) (before rest : List Bytes) (b c : Bool)
    → passes p b before ≡ some c
    → field_value q b (before ++ rest) ≡ none
    → passes q b before ≡ some c
unfolding passes field_value
passes_both p q [] rest b c h k = h
passes_both p q (l ∷ ls) rest b c h k =
    ground (arith, passes_both p q ls rest true c, passes_both p q ls rest b c)

passes-append :
    (p : Bytes) (before rest : List Bytes) (b c : Bool)
    → passes p b before ≡ some c
    → passes p b (before ++ rest) ≡ passes p c rest
unfolding passes
passes-append p [] rest b c h = ground arith
passes-append p (l ∷ ls) rest b c h =
    ground (arith, passes-append p ls rest true c, passes-append p ls rest b c)

length-snoc : (xs : List Bytes) (y : Bytes) → length (xs ++ y ∷ []) ≡ length xs + 1
length-snoc xs y = length-append xs (y ∷ []) ∙ omega arith

take-suc : (xs ys : List Bytes) (y : Bytes) → take (length xs + 1) (xs ++ y ∷ ys) ≡ xs ++ y ∷ []
take-suc xs ys y =
    rw (← length-snoc xs y, ← append_assoc xs (y ∷ []) ys) (take-append (xs ++ y ∷ []) ys)

pub drop-suc : (xs ys : List Bytes) (y : Bytes) → drop (length xs + 1) (xs ++ y ∷ ys) ≡ ys
drop-suc xs ys y =
    rw (← length-snoc xs y, ← append_assoc xs (y ∷ []) ys) (drop-append (xs ++ y ∷ []) ys)

-- Where the new line goes.
pub record Inserted (content changed line : Bytes) : Type 0 where
  pub found : Found status_prefix false (lines_of content)
  pub lines : lines_of changed ≡ found.before ++ found.line ∷ line ∷ found.after

inserted-Lacks :
    (content : Bytes) (before after : List Bytes) (old line : Bytes)
    → lines_of content ≡ before ++ old ∷ after
    → Lacks newline line
    → All (Lacks newline) (before ++ old ∷ line ∷ after)
inserted-Lacks content before after old line s h =
    let all_lines : All (Lacks newline) (before ++ old ∷ after) =
      rw s at (split-Lacks content newline) in
    let behind : All (Lacks newline) (old ∷ after) =
      All-append_right (Lacks newline) before (old ∷ after) all_lines in
    All-append (Lacks newline) before (old ∷ line ∷ after)
      (All-append_left (Lacks newline) before (old ∷ after) all_lines) (behind.0, (h, behind.1))

insert_at :
    (ls before after : List Bytes) (old line : Bytes)
    → ls ≡ before ++ old ∷ after
    → take (length before + 1) ls ++ (line ∷ drop (length before + 1) ls)
      ≡ before ++ old ∷ line ∷ after
insert_at ls before after old line e =
    rw (e, take-suc, drop-suc) (append_assoc before (old ∷ []) (line ∷ after))

module _ (content field value : Bytes) (s : Found status_prefix false (lines_of content)) where
  -- The text behind an insertion below the status line.
  abbrev pub inserted_line : Bytes
  inserted_line = join_lines (s.before ++ s.line ∷ (prefix_of field ++ value) ∷ s.after)

  pub add_field-Found : add_field content field value ≡ ok inserted_line
  unfolding add_field
  add_field-Found =
      rw (line_index-Found status_prefix content s, add_field)
        (ap ok (
          ap join_lines (
            insert_at (lines_of content) s.before s.after s.line (prefix_of field ++ value)
              s.splits)))

  pub lines_of-inserted :
      IsField (prefix_of field) value
      → lines_of inserted_line ≡ s.before ++ s.line ∷ (prefix_of field ++ value) ∷ s.after
  lines_of-inserted f = lines_of-join s.before ((prefix_of field ++ value) ∷ s.after) s.line (
      inserted-Lacks content s.before s.after s.line (prefix_of field ++ value) s.splits f.one_line)

  -- The status line stays where it was.
  unfoldable pub Found-inserted :
      IsField (prefix_of field) value → Found status_prefix false (lines_of inserted_line)
  Found-inserted f = record {
    before = s.before;
    line = s.line;
    after = (prefix_of field ++ value) ∷ s.after;
    splits = lines_of-inserted f;
    passed = s.passed;
    hit = s.hit;
  }

pub add_field_cases :
    (content field value : Bytes)
    → IsField (prefix_of field) value
    → ((get_field status_prefix content ≡ none)
        × (add_field content field value ≡ err field_insert_failed))
      ⊎ ((changed : Bytes) × (add_field content field value ≡ ok changed)
          × Inserted content changed (prefix_of field ++ value))
unfolding add_field
add_field_cases content field value f =
    elim (search_cases status_prefix (lines_of content) false 0) [
      | inl (no_value, no_index) ↦ inl (unfold get_field in no_value, rw (no_index, add_field))
      | inr s ↦ inr (
        inserted_line content field value s,
        add_field-Found content field value s,
        record { found = s; lines = lines_of-inserted content field value s f },
      )
    ]

-- The new line, as the loop for its own prefix finds it in a text that lacked the field.
pub Inserted-Found :
    (content changed field value : Bytes)
    → IsField (prefix_of field) value
    → clash status_prefix (prefix_of field) ≡ true
    → get_field (prefix_of field) content ≡ none
    → (s : Inserted content changed (prefix_of field ++ value))
    → Found (prefix_of field) false (lines_of changed)
unfolding get_field
Inserted-Found content changed field value f apart absent s =
    let q = prefix_of field in
    let st = s.found in
    let lacks : field_value q false (st.before ++ st.line ∷ st.after) ≡ none =
      rw st.splits at absent in
    let past : passes q true (st.line ∷ []) ≡ some true =
      unfold passes in
      rw (st.hit.inside, clash-has_prefix status_prefix q st.line apart st.hit.starts) in
    record {
      before = st.before ++ st.line ∷ [];
      line = q ++ value;
      after = st.after;
      splits = s.lines ∙ sym (append_assoc st.before (st.line ∷ []) ((q ++ value) ∷ st.after));
      passed =
          passes-append q st.before (st.line ∷ []) false true
            (passes_both status_prefix q st.before (st.line ∷ st.after) false true st.passed lacks)
          ∙ past;
      hit = IsField-IsHit f;
    }

remove_at :
    (ls before after : List Bytes) (line : Bytes)
    → ls ≡ before ++ line ∷ after
    → take (length before) ls ++ drop (length before + 1) ls ≡ before ++ after
remove_at ls before after line e = rw (e, take-append before (line ∷ after), drop-suc) refl

-- Removing a field takes the line away that the loop finds.
pub remove_field-Found :
    (field content : Bytes) (f : Found (prefix_of field) false (lines_of content))
    → remove_field content field ≡ some (join_lines (f.before ++ f.after))
unfolding remove_field
remove_field-Found field content f =
    rw (line_index-Found (prefix_of field) content f, remove_field)
      (ap some (ap join_lines (remove_at (lines_of content) f.before f.after f.line f.splits)))

-- What adding a field does: the field reads as the value, every field with another prefix reads
-- as before, and removing the field gives the very text back.
pub record Adds (content field value changed : Bytes) : Type 0 where
  pub edits : Edits (prefix_of field) content value changed
  pub removes : remove_field changed field ≡ some content

pub Inserted-Adds :
    (content changed field value : Bytes)
    → IsField (prefix_of field) value
    → clash status_prefix (prefix_of field) ≡ true
    → get_field (prefix_of field) content ≡ none
    → Inserted content changed (prefix_of field ++ value)
    → Adds content field value changed
unfolding Inserted-Found
Inserted-Adds content changed field value f apart absent s =
    let q = prefix_of field in
    let new = Inserted-Found content changed field value f apart absent s in
    let st = s.found in
    let old_lines : new.before ++ new.after ≡ lines_of content =
      append_assoc st.before (st.line ∷ []) st.after ∙ sym st.splits in
    record {
      edits = record {
        reads = get_field-Found q changed new ∙ ap some (trim_prefix-append q value);
        keeps = λ r h.
            unfold get_field in
            rw new.splits (
              field_value-skip r new.before new.after new.line false f.inside
                (clash-has_prefix q r new.line h (has_prefix-append q value))
              ∙ ap (field_value r false) old_lines);
      };
      removes =
          remove_field-Found field changed new
          ∙ ap some (ap join_lines old_lines ∙ join-split content newline);
    }

pub add_field_lem :
    (content field value : Bytes)
    → IsField (prefix_of field) value
    → clash status_prefix (prefix_of field) ≡ true
    → get_field (prefix_of field) content ≡ none
    → ((get_field status_prefix content ≡ none)
        × (add_field content field value ≡ err field_insert_failed))
      ⊎ ((changed : Bytes) × (add_field content field value ≡ ok changed)
          × Adds content field value changed)
add_field_lem content field value f apart absent = elim (add_field_cases content field value f) [
  | inl missing ↦ inl missing
  | inr (changed, e, s) ↦
      inr (changed, e, Inserted-Adds content changed field value f apart absent s)
]
