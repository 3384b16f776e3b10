-- ===== src/Text/Trim.antt =====
-- `strings.TrimSpace`, over the UTF-8 encodings of the characters that `unicode.IsSpace` accepts.
use mathlib.Core.List.{reverse-append, reverse-reverse}
use agent_task.Prelude.{
  ℕ, zero, suc, ◌≡◌, refl, sym, ap, ◌∙◌, Bool, true, false, List, [], ◌∷◌, ◌++◌, map, reverse,
  if◌then◌else◌, length,
}
use agent_task.Text.Compare.{Bytes, has_prefix, behind}

-- U+0009 to U+000D, U+0020, U+0085, U+00A0, U+1680, U+2000 to U+200A, U+2028, U+2029, U+202F,
-- U+205F and U+3000.
abbrev pub white_spaces : List Bytes
white_spaces =
    (0x20 ∷ [])
    ∷ (0x09 ∷ [])
    ∷ (0x0A ∷ [])
    ∷ (0x0B ∷ [])
    ∷ (0x0C ∷ [])
    ∷ (0x0D ∷ [])
    ∷ (0xC2 ∷ 0x85 ∷ [])
    ∷ (0xC2 ∷ 0xA0 ∷ [])
    ∷ (0xE1 ∷ 0x9A ∷ 0x80 ∷ [])
    ∷ (0xE2 ∷ 0x80 ∷ 0x80 ∷ [])
    ∷ (0xE2 ∷ 0x80 ∷ 0x81 ∷ [])
    ∷ (0xE2 ∷ 0x80 ∷ 0x82 ∷ [])
    ∷ (0xE2 ∷ 0x80 ∷ 0x83 ∷ [])
    ∷ (0xE2 ∷ 0x80 ∷ 0x84 ∷ [])
    ∷ (0xE2 ∷ 0x80 ∷ 0x85 ∷ [])
    ∷ (0xE2 ∷ 0x80 ∷ 0x86 ∷ [])
    ∷ (0xE2 ∷ 0x80 ∷ 0x87 ∷ [])
    ∷ (0xE2 ∷ 0x80 ∷ 0x88 ∷ [])
    ∷ (0xE2 ∷ 0x80 ∷ 0x89 ∷ [])
    ∷ (0xE2 ∷ 0x80 ∷ 0x8A ∷ [])
    ∷ (0xE2 ∷ 0x80 ∷ 0xA8 ∷ [])
    ∷ (0xE2 ∷ 0x80 ∷ 0xA9 ∷ [])
    ∷ (0xE2 ∷ 0x80 ∷ 0xAF ∷ [])
    ∷ (0xE2 ∷ 0x81 ∷ 0x9F ∷ [])
    ∷ (0xE3 ∷ 0x80 ∷ 0x80 ∷ [])
    ∷ []

-- The text behind its first character, if that is one of the spaces.
unfoldable pub skip_one : List Bytes → Bytes → Bytes
unfolding has_prefix
skip_one [] s = s
skip_one (w ∷ ws) s = if has_prefix s w then behind s w else skip_one ws s

unfoldable pub starts_with_any : List Bytes → Bytes → Bool
unfolding has_prefix
starts_with_any [] s = false
starts_with_any (w ∷ ws) s = if has_prefix s w then true else starts_with_any ws s

-- Spaces are skipped as long as there are any; each has a byte, so the length is fuel enough.
unfoldable pub skip : List Bytes → ℕ → Bytes → Bytes
unfolding skip_one starts_with_any
skip ws zero s = s
skip ws (suc fuel) s =
    let rest = skip ws fuel (skip_one ws s) in if starts_with_any ws s then rest else s

unfoldable pub trim_left : Bytes → Bytes
unfolding skip
trim_left s = skip white_spaces (length s) s

unfoldable pub trim_right : Bytes → Bytes
unfolding skip
trim_right s = reverse (skip (map reverse white_spaces) (length s) (reverse s))

unfoldable pub trim_space : Bytes → Bytes
unfolding trim_left trim_right
trim_space s = trim_right (trim_left s)

-- One blank in front of a text is trimmed away.
pub trim_space-blank : (s : Bytes) → trim_space (0x20 ∷ s) ≡ trim_space s
unfolding trim_space
trim_space-blank s = refl

trimmed : trim_space (0x20 ∷ 0x61 ∷ 0x20 ∷ 0x62 ∷ 0x0D ∷ []) ≡ 0x61 ∷ 0x20 ∷ 0x62 ∷ []
unfolding trim_space
trimmed = refl

skip_left : (n : ℕ) (s : Bytes) → skip white_spaces n (b'[' ∷ s) ≡ b'[' ∷ s
unfolding skip
skip_left zero s = refl
skip_left (suc n) s = refl

skip_right : (n : ℕ) (s : Bytes) → skip (map reverse white_spaces) n (b']' ∷ s) ≡ b']' ∷ s
unfolding skip
skip_right zero s = refl
skip_right (suc n) s = refl

reverse_bracket : (s : Bytes) → reverse (s ++ b']' ∷ []) ≡ b']' ∷ reverse s
reverse_bracket s = reverse-append s (b']' ∷ [])

trim_right_bracket : (s : Bytes) → trim_right (s ++ b']' ∷ []) ≡ s ++ b']' ∷ []
trim_right_bracket s =
    unfold trim_right in
    ap reverse (
      ap (skip (map reverse white_spaces) (length (s ++ b']' ∷ []))) (reverse_bracket s)
      ∙ skip_right (length (s ++ b']' ∷ [])) (reverse s)
      ∙ sym (reverse_bracket s))
    ∙ reverse-reverse (s ++ b']' ∷ [])

-- A text between brackets has nothing to trim.
pub trim_space_brackets :
    (s : Bytes) → trim_space (b'[' ∷ (s ++ b']' ∷ [])) ≡ b'[' ∷ (s ++ b']' ∷ [])
trim_space_brackets s =
    unfold trim_space in
    ap trim_right
      (unfold trim_left in skip_left (length (b'[' ∷ (s ++ b']' ∷ []))) (s ++ b']' ∷ []))
    ∙ trim_right_bracket (b'[' ∷ s)
