-- ===== src/Listing/Agreement.antt =====
-- The filter over the index of the cache agrees with the filter over parsed tickets. The entry of a
-- ticket and the options for the index are made as in cache.go and in `ListTickets`.
use agent_task.Prelude.{
  ℕ, ◌≤◌, ◌≡◌, refl, sym, ap, ◌∙◌, true, false, not, ◌&&◌, Option, none, some, [], ◌==◌, ==_iff,
  if◌then◌else◌, inl, inr, Bool-cases, length,
}
use agent_task.Text.{Bytes, equal, equal_iff, Lacks, pos}
use agent_task.Ticket.{Summary, is_valid_status, is_valid_type}
use agent_task.Cache.{
  status_string_to_byte, status_byte_to_string, type_string_to_byte, type_byte_to_string,
}
use agent_task.Cache.Words.{
  status_byte_to_string-status_string_to_byte, type_byte_to_string-type_string_to_byte,
}
use agent_task.Cache.Padding.{stored_parent, stored_parent_lem}
use agent_task.Listing.{
  ListTicketsOptions, ticket_summary_matches, IndexEntry, FilterEntriesOpts, accepts, entry_matches,
}

-- The index entry of a ticket, for the priority byte `p`.
abbrev pub index_entry : ℕ → Summary → IndexEntry
index_entry p s = record {
  status = status_string_to_byte s.status;
  priority = p;
  ticket_type = type_string_to_byte s.ticket_type;
  parent = stored_parent s.parent;
}

abbrev filter_byte : (Bytes → ℕ) → Bytes → Option ℕ
filter_byte to_byte word = if equal word [] then none else some (to_byte word)

-- The options that `ListTickets` gives to the cache.
abbrev pub entries_opts : ListTicketsOptions → FilterEntriesOpts
entries_opts o = record {
  status = filter_byte status_string_to_byte o.status;
  priority = o.priority;
  ticket_type = filter_byte type_string_to_byte o.ticket_type;
  parent = o.parent;
  roots_only = o.roots_only;
  limit = o.limit;
  offset = o.offset;
}

-- Bytes that can be turned back are equal exactly if the words are.
bytes_agree :
    (to_byte : Bytes → ℕ) (back : ℕ → Bytes) (a b : Bytes)
    → back (to_byte a) ≡ a
    → back (to_byte b) ≡ b
    → (to_byte a == to_byte b) ≡ equal a b
bytes_agree to_byte back a b ha hb = elim (Bool-cases (equal a b)) [
  | inl same ↦
      let e : to_byte a ≡ to_byte b = ap to_byte ((equal_iff a b).0 same) in
      (==_iff (to_byte a) (to_byte b)).1 e ∙ sym same
  | inr differ ↦ elim (Bool-cases (to_byte a == to_byte b)) [
    | inl same ↦
        let e : to_byte a ≡ to_byte b = (==_iff (to_byte a) (to_byte b)).0 same in
        let words : a ≡ b = sym ha ∙ ap back e ∙ hb in same ∙ sym ((equal_iff a b).1 words)
    | inr other ↦ other ∙ sym differ
  ]
]

filter_agrees :
    (to_byte : Bytes → ℕ) (back : ℕ → Bytes) (a word : Bytes)
    → back (to_byte a) ≡ a
    → (equal word [] ≡ false → back (to_byte word) ≡ word)
    → not (accepts (filter_byte to_byte word) (to_byte a))
      ≡ (not (equal word []) && not (equal a word))
filter_agrees to_byte back a word ha hw = elim (Bool-cases (equal word [])) [
  | inl all_words ↦ rw all_words refl
  | inr given ↦ rw given (ap not (bytes_agree to_byte back a word ha (hw given)))
]

-- For a ticket of a valid status and type, a priority that is not negative and a parent of at most twelve
-- bytes other than zero, and for a status and a type in the options that are empty or valid, the entry
-- in the cache matches exactly if the ticket does.
pub entry_matches-index_entry :
    (s : Summary) (o : ListTicketsOptions) (p : ℕ)
    → is_valid_status s.status ≡ true
    → is_valid_type s.ticket_type ≡ true
    → s.priority ≡ pos p
    → length s.parent ≤ 12
    → Lacks 0 s.parent
    → (equal o.status [] ≡ false → is_valid_status o.status ≡ true)
    → (equal o.ticket_type [] ≡ false → is_valid_type o.ticket_type ≡ true)
    → entry_matches (entries_opts o) (index_entry p s) ≡ ticket_summary_matches s o
unfolding entry_matches ticket_summary_matches
entry_matches-index_entry s o p hs ht hp short plain os ot =
    let status =
      filter_agrees status_string_to_byte status_byte_to_string s.status o.status
        (status_byte_to_string-status_string_to_byte s.status hs)
        (λ g. status_byte_to_string-status_string_to_byte o.status (os g)) in
    let ticket_type =
      filter_agrees type_string_to_byte type_byte_to_string s.ticket_type o.ticket_type
        (type_byte_to_string-type_string_to_byte s.ticket_type ht)
        (λ g. type_byte_to_string-type_string_to_byte o.ticket_type (ot g)) in
    rw (status, ticket_type, hp, stored_parent_lem s.parent short plain) refl
