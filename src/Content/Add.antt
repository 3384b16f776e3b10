-- ===== src/Content/Add.antt =====
-- Adding a field: what other readers still find.
use agent_task.Prelude.{◌≡◌, ap, ◌∙◌, sym, true, false, [], ◌∷◌, ◌++◌, append_assoc, inl, inr}
use agent_task.Result.{ok}
use agent_task.Text.{Bytes, has_prefix-append}
use agent_task.Content.Edits.{clash, clash-has_prefix, IsField, field_value-skip}
use agent_task.Content.Insert.{prefix_of, Inserted, add_field_cases}
use agent_task.Content.{field_value, get_field, add_field}

Inserted-keeps :
    (content changed field value q : Bytes)
    → IsField (prefix_of field) value
    → clash (prefix_of field) q ≡ true
    → Inserted content changed (prefix_of field ++ value)
    → get_field q changed ≡ get_field q content
unfolding get_field
Inserted-keeps content changed field value q f h s =
    let st = s.found in
    let line = prefix_of field ++ value in
    ap (field_value q false)
      (s.lines ∙ sym (append_assoc st.before (st.line ∷ []) (line ∷ st.after)))
    ∙ field_value-skip q (st.before ++ st.line ∷ []) st.after line false f.inside
        (clash-has_prefix (prefix_of field) q line h (has_prefix-append (prefix_of field) value))
    ∙ ap (field_value q false) (append_assoc st.before (st.line ∷ []) st.after ∙ sym st.splits)

-- Adding a field changes nothing that a reader of a field with another prefix returns.
pub get_field-add :
    (field content value changed q : Bytes)
    → IsField (prefix_of field) value
    → clash (prefix_of field) q ≡ true
    → add_field content field value ≡ ok changed
    → get_field q changed ≡ get_field q content
get_field-add field content value changed q f h e = elim (add_field_cases content field value f) [
  | inl (_, fails) ↦ cc (fails, e)
  | inr (other, done, s) ↦
      let same : other ≡ changed = cc (done, e) in
      ap (get_field q) (sym same) ∙ Inserted-keeps content other field value q f h s
]
