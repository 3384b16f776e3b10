-- ===== src/Lifecycle/Blockers.antt =====
-- Blocking a ticket and unblocking it again.
use agent_task.Prelude.{
  ◌+◌, ◌≡◌, ◌≢◌, refl, ap, ◌∙◌, true, false, none, some, List, [], ◌∷◌, ◌++◌, append-nil, inl, inr,
  arith, length, take, drop, take-append, All, All-append, Bool-cases,
}
use agent_task.Result.{ok, err, already_blocked_by}
use agent_task.Text.{Bytes, equal, equal_refl, contains}
use agent_task.Content.{blocked_by_prefix, get_field, get_blocked_by, update_blocked_by}
use agent_task.Content.Edits.{clash}
use agent_task.Content.Insert.{drop-suc}
use agent_task.Content.BlockedBy.{IsPlainId, update_blocked_by_lem}
use agent_task.Lifecycle.{cut, block_content, unblock_content, index_of}

index_of-append :
    (ids : List Bytes) (blocker : Bytes)
    → contains ids blocker ≡ false
    → index_of (ids ++ blocker ∷ []) blocker ≡ some (length ids)
unfolding contains index_of
index_of-append [] b h = rw (equal_refl b) refl
index_of-append (x ∷ ids) b h = elim (Bool-cases (equal x b)) [
  | inl same ↦ cc (rw same at h)
  | inr other ↦ rw (other, index_of-append ids b (rw other at h)) (ap some (omega arith))
]

contains-last : (ids : List Bytes) (b : Bytes) → contains (ids ++ b ∷ []) b ≡ true
unfolding contains
contains-last [] b = rw (equal_refl b) refl
contains-last (x ∷ ids) b = ground (arith, contains-last ids b)

-- The list with the last entry cut out.
cut_last :
    (ids : List Bytes) (b : Bytes)
    → take (length ids) (ids ++ b ∷ []) ++ drop (length ids + 1) (ids ++ b ∷ []) ≡ ids
cut_last ids b = rw (take-append ids (b ∷ []), drop-suc ids [] b) (append-nil ids)

block_text :
    (content blocker : Bytes) (ids : List Bytes)
    → get_blocked_by content ≡ ok ids
    → contains ids blocker ≡ false
    → block_content blocker content ≡ update_blocked_by content (ids ++ blocker ∷ [])
unfolding block_content
block_text content blocker ids e h = rw (e, h) refl

unblock_text :
    (content blocker : Bytes) (ids : List Bytes)
    → get_blocked_by content ≡ ok (ids ++ blocker ∷ [])
    → contains ids blocker ≡ false
    → unblock_content blocker content ≡ update_blocked_by content ids
unfolding unblock_content
unblock_text content blocker ids e h = rw e (
    ap (cut content (ids ++ blocker ∷ [])) (index_of-append ids blocker h)
    ∙ ap (update_blocked_by content) (cut_last ids blocker))

-- A ticket that is blocked by the ticket already is refused.
pub block_content-blocked :
    (content blocker : Bytes) (ids : List Bytes)
    → get_blocked_by content ≡ ok ids
    → contains ids blocker ≡ true
    → block_content blocker content ≡ err already_blocked_by
unfolding block_content
block_content-blocked content blocker ids e h = rw (e, h) refl

has_line :
    (content : Bytes) (ids : List Bytes)
    → All IsPlainId ids
    → get_field blocked_by_prefix content ≢ none
    → (changed : Bytes) × (update_blocked_by content ids ≡ ok changed)
      × (get_field blocked_by_prefix changed ≢ none)
      × (get_blocked_by changed ≡ ok ids)
      × ((q : Bytes) → clash blocked_by_prefix q ≡ true → get_field q changed ≡ get_field q content)
has_line content ids h found = elim (update_blocked_by_lem content ids h) [
  | inl (missing, _) ↦ elim (found missing) [ ]
  | inr (old, changed, _, done, line, reads, keeps) ↦
      (changed, done, (λ missing. cc (missing, line)), reads, keeps)
]

-- A ticket with a `blocked-by` line of plain identifiers, blocked by a plain identifier that is not
-- among them, gets that one behind the others. Unblocking then gives back the list of before, and
-- every field with another prefix reads as it did at first.
pub unblock-block :
    (content blocker : Bytes) (ids : List Bytes)
    → All IsPlainId ids
    → IsPlainId blocker
    → get_field blocked_by_prefix content ≢ none
    → get_blocked_by content ≡ ok ids
    → contains ids blocker ≡ false
    → (blocked unblocked : Bytes) × (block_content blocker content ≡ ok blocked)
      × (get_blocked_by blocked ≡ ok (ids ++ blocker ∷ []))
      × (block_content blocker blocked ≡ err already_blocked_by)
      × (unblock_content blocker blocked ≡ ok unblocked)
      × (get_blocked_by unblocked ≡ ok ids)
      × ((q : Bytes)
          → clash blocked_by_prefix q ≡ true
          → get_field q unblocked ≡ get_field q content)
unblock-block content blocker ids plain plain_blocker found e h =
    let (blocked, adds, line, lists, keeps) =
      has_line content (ids ++ blocker ∷ [])
        (All-append IsPlainId ids (blocker ∷ []) plain (plain_blocker, tt)) found in
    let (unblocked, cuts, _, restores, keeps') = has_line blocked ids plain line in
    (
      blocked,
      unblocked,
      block_text content blocker ids e h ∙ adds,
      lists,
      block_content-blocked blocked blocker (ids ++ blocker ∷ []) lists (contains-last ids blocker),
      unblock_text blocked blocker ids lists h ∙ cuts,
      restores,
      λ q c. keeps' q c ∙ keeps q c,
    )
