-- ===== src/Cache/Words.antt =====
-- The bytes for a status and a type name it.
use agent_task.Prelude.{◌≡◌, refl, true, List, [], ◌∷◌, inl, inr, subst, Bool-cases}
use agent_task.Text.{Bytes, equal, equal_iff, contains}
use agent_task.Ticket.{is_valid_status, is_valid_type, valid_statuses, valid_types}
use agent_task.Cache.{
  status_string_to_byte, status_byte_to_string, type_string_to_byte, type_byte_to_string,
}

-- What holds of every word on a list holds of a word that the list contains.
abbrev AllWords : (Bytes → Type 0) → List Bytes → Type 0
AllWords P [] = Unit
AllWords P (w ∷ ws) = P w × AllWords P ws

contained :
    (P : Bytes → Type 0) (ws : List Bytes) (s : Bytes) → AllWords P ws → contains ws s ≡ true → P s
unfolding contains
contained P [] s a h = cc h
contained P (w ∷ ws) s (p, a) h = elim (Bool-cases (equal w s)) [
  | inl same ↦ subst P ((equal_iff w s).0 same) p
  | inr other ↦ contained P ws s a (rw other at h)
]

named_statuses : AllWords (λ w. status_byte_to_string (status_string_to_byte w) ≡ w) valid_statuses
unfolding status_string_to_byte status_byte_to_string equal
named_statuses = (refl, (refl, (refl, tt)))

named_types : AllWords (λ w. type_byte_to_string (type_string_to_byte w) ≡ w) valid_types
unfolding type_string_to_byte type_byte_to_string equal
named_types = (refl, (refl, (refl, (refl, (refl, tt)))))

pub status_byte_to_string-status_string_to_byte :
    (s : Bytes) → is_valid_status s ≡ true → status_byte_to_string (status_string_to_byte s) ≡ s
unfolding is_valid_status
status_byte_to_string-status_string_to_byte s h =
    contained (λ w. status_byte_to_string (status_string_to_byte w) ≡ w) valid_statuses s
      named_statuses h

pub type_byte_to_string-type_string_to_byte :
    (t : Bytes) → is_valid_type t ≡ true → type_byte_to_string (type_string_to_byte t) ≡ t
unfolding is_valid_type
type_byte_to_string-type_string_to_byte t h =
    contained (λ w. type_byte_to_string (type_string_to_byte w) ≡ w) valid_types t named_types h
