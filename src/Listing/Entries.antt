-- ===== src/Listing/Entries.antt =====
-- The filter over the index of the cache: the indices of a page of what matches.
use agent_task.Prelude.{
  ℕ, suc, ◌+◌, ◌<◌, ◌≡◌, refl, sym, ap, ◌∙◌, Bool, false, not, ◌&&◌, none, some, List, [], ◌∷◌, ltb,
  leb, ◌==◌, if◌then◌else◌, length, inl, inr, arith, Bool-cases,
}
use agent_task.Listing.{IndexEntry, FilterEntriesOpts, entry_matches, entries_loop, filter_entries}
use agent_task.Listing.Pages.{
  page, remaining, remaining_skip, remaining_emit, remaining_none, remaining_all, remaining_empty,
}

-- The indices of the entries that match, from `i` on.
abbrev pub matching {ℓ} : {A : Type ℓ} → (A → Bool) → ℕ → List A → List ℕ
matching p i [] = []
matching p i (e ∷ entries) = let rest = matching p (i + 1) entries in if p e then i ∷ rest else rest

module _ {ℓ} {A : Type ℓ} (p : A → Bool) (limit offset : ℕ) where
  -- The loop emits what remains of the page, and its count tells whether the offset is out of bounds.
  abbrev Emits : List A → ℕ → ℕ → ℕ → List ℕ × ℕ → Type 0
  Emits entries i matched found (out, count) =
      (out ≡ remaining limit offset matched found (matching p i entries))
      × (leb count offset ≡ leb (matched + length (matching p i entries)) offset)

  entries_loop-Emits :
      (entries : List A) (i matched found : ℕ)
      → (limit == 0 ≡ false → found < limit)
      → Emits entries i matched found (entries_loop p limit offset entries i matched found)
  unfolding entries_loop
  entries_loop-Emits [] i matched found h =
      let e : matched ≡ matched + 0 = omega arith in
      (sym (remaining_empty limit offset matched found), ap (λ n. leb n offset) e)
  entries_loop-Emits (e ∷ entries) i matched found h =
      let rest = matching p (i + 1) entries in
      let one_more : matched + 1 + length rest ≡ matched + suc (length rest) = omega arith in
      elim (Bool-cases (p e)) [
        | inr other ↦ rw other (entries_loop-Emits entries (i + 1) matched found h)
        | inl hit ↦ elim (Bool-cases (ltb matched offset)) [
          | inl before ↦
              let (out, count) = entries_loop-Emits entries (i + 1) (matched + 1) found h in
              rw (hit, before)
                (
                  out ∙ sym (remaining_skip limit offset matched found i rest (ground arith)),
                  count ∙ ap (λ n. leb n offset) one_more,
                )
          | inr behind ↦
              let emits = remaining_emit limit offset matched found i rest (ground arith) h in
              elim (Bool-cases (not (limit == 0) && leb limit (found + 1))) [
                | inl last ↦
                    rw (hit, behind, last)
                      (
                        sym (
                            emits
                            ∙ ap (◌∷◌ i) (
                                remaining_none limit offset (matched + 1) (found + 1) rest
                                  (ground arith) (ground arith))),
                        ground arith,
                      )
                | inr going ↦
                    let (out, count) =
                      entries_loop-Emits entries (i + 1) (matched + 1) (found + 1)
                        (λ k. ground arith) in
                    rw (hit, behind, going)
                      (ap (◌∷◌ i) out ∙ sym emits, count ∙ ap (λ n. leb n offset) one_more)
              ]
        ]
      ]

-- The list is nil if the offset is not 0 and not below the number of matches; otherwise it is the
-- page: the indices of the matching entries, without the first `offset` ones, up to the limit.
pub filter_entries_lem :
    (entries : List IndexEntry) (o : FilterEntriesOpts)
    → filter_entries entries o ≡ (
        let matched = matching (entry_matches o) 0 entries in
        if not (o.offset == 0) && leb (length matched) o.offset
        then none
        else some (page o.limit o.offset matched))
unfolding filter_entries
filter_entries_lem [] o =
    let empty : page {A = ℕ} o.limit o.offset [] ≡ [] =
      sym (remaining_all o.limit o.offset []) ∙ remaining_empty o.limit o.offset 0 0 in
    rw empty (ground arith)
filter_entries_lem (e ∷ entries) o =
    let p = entry_matches o in
    let (out, count) =
      entries_loop-Emits p o.limit o.offset (e ∷ entries) 0 0 0 (λ k. ground arith) in
    let from_none : 0 + length (matching p 0 (e ∷ entries)) ≡ length (matching p 0 (e ∷ entries)) =
      omega arith in
    rw (out, count, from_none, remaining_all o.limit o.offset (matching p 0 (e ∷ entries))) refl
