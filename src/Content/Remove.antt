-- ===== src/Content/Remove.antt =====
-- Removing a field: what other readers still find.
use mathlib.Core.List.{cons-ne-nil}
use agent_task.Prelude.{
  ◌≡◌, ◌≢◌, sym, ap, ◌∙◌, true, false, none, some, List, [], ◌∷◌, ◌++◌, inl, inr, All, All-append,
  All-append_left, All-append_right,
}
use agent_task.Text.{Bytes, Lacks, split-Lacks, split-join}
use agent_task.Content.Locate.{passes, Found, search_cases}
use agent_task.Content.Edits.{clash, clash-has_prefix, field_value-skip}
use agent_task.Content.Insert.{prefix_of, remove_field-Found}
use agent_task.Content.{
  newline, lines_of, join_lines, field_value, line_index, get_field, remove_field,
}

has_line :
    (prefix : Bytes) (before after : List Bytes)
    → passes prefix false before ≡ some true
    → before ++ after ≢ []
unfolding passes
has_line prefix [] after h = cc
has_line prefix (l ∷ before) after h = cons-ne-nil l (before ++ after)

-- The line removed is not the only one: a line above it opens the frontmatter.
removed_rest :
    (prefix content : Bytes) (f : Found prefix false (lines_of content))
    → lines_of (join_lines (f.before ++ f.after)) ≡ f.before ++ f.after
removed_rest prefix content f =
    split-join (f.before ++ f.after) newline (has_line prefix f.before f.after f.passed) (
      All-append (Lacks newline) f.before f.after
        (All-append_left (Lacks newline) f.before (f.line ∷ f.after) all_lines)
        (All-append_right (Lacks newline) f.before (f.line ∷ f.after) all_lines).1)
  where
    all_lines : All (Lacks newline) (f.before ++ f.line ∷ f.after)
    all_lines = rw f.splits at (split-Lacks content newline)

remove_field-none :
    (content field : Bytes)
    → line_index (prefix_of field) false 0 (lines_of content) ≡ none
    → remove_field content field ≡ none
unfolding remove_field
remove_field-none content field h = rw (h, remove_field)

-- Removing a field changes nothing that a reader of a field with another prefix returns.
pub get_field-remove :
    (field content removed q : Bytes)
    → clash (prefix_of field) q ≡ true
    → remove_field content field ≡ some removed
    → get_field q removed ≡ get_field q content
unfolding get_field
get_field-remove field content removed q h e =
    elim (search_cases (prefix_of field) (lines_of content) false 0) [
      | inl (no_value, no_index) ↦ cc (remove_field-none content field no_index, e)
      | inr f ↦
          let r : join_lines (f.before ++ f.after) ≡ removed =
            cc (remove_field-Found field content f, e) in
          ap (λ c. field_value q false (lines_of c)) (sym r)
          ∙ ap (field_value q false) (removed_rest (prefix_of field) content f)
          ∙ sym (
              field_value-skip q f.before f.after f.line false f.hit.inside
                (clash-has_prefix (prefix_of field) q f.line h f.hit.starts))
          ∙ ap (field_value q false) (sym f.splits)
    ]
