-- ===== src/Listing/Results.antt =====
-- The filter over parsed tickets: a page of what matches, and every parse error.
use agent_task.Prelude.{
  ℕ, ◌+◌, ◌≡◌, refl, sym, ap, ◌∙◌, Bool, true, false, not, ◌&&◌, List, [], ◌∷◌, ltb, leb, ◌==◌,
  if◌then◌else◌, length, inl, inr, arith, Bool-cases, ◌⊎◌,
}
use agent_task.Result.{Error, Result, ok, err, offset_out_of_bounds}
use agent_task.Ticket.{Summary}
use agent_task.Listing.{
  Counters, count_match, filter_loop, fresh_counters, filter_ticket_results, ticket_summary_matches,
  ListTicketsOptions,
}
use agent_task.Listing.Pages.{
  keep, page, remaining, remaining_skip, remaining_emit, remaining_none, remaining_all,
  remaining_empty,
}

abbrev pub summaries : List (Result Summary) → List Summary
summaries [] = []
summaries (ok s ∷ rs) = s ∷ summaries rs
summaries (err e ∷ rs) = summaries rs

abbrev pub failures : List (Result Summary) → List Error
failures [] = []
failures (ok s ∷ rs) = failures rs
failures (err e ∷ rs) = e ∷ failures rs

module _ (p : Summary → Bool) (limit offset : ℕ) where
  abbrev InStep : Counters → Type 0
  InStep c = c.limit_reached ≡ (not (limit == 0) && leb limit c.emitted)

  abbrev left : Counters → List Summary → List Summary
  left c xs = remaining limit offset c.match_count c.emitted xs

  record Counts (c : Counters) (s : Summary) (next : Counters) (emit : Bool) : Type 0 where
    in_step : InStep next
    one_more : next.match_count ≡ c.match_count + 1
    emits :
        (xs : List Summary) → left c (s ∷ xs) ≡ (if emit then s ∷ left next xs else left next xs)

  -- A match is counted, and it is emitted if it is next on the page.
  count_match-Counts :
      (c : Counters) (s : Summary)
      → InStep c
      → Counts c s (count_match limit offset c).0 (count_match limit offset c).1
  unfolding count_match
  count_match-Counts c s h = elim (Bool-cases (ltb c.match_count offset)) [
    | inl before ↦ rw before (record {
      in_step = h;
      one_more = refl;
      emits = λ xs. remaining_skip limit offset c.match_count c.emitted s xs (ground arith);
    })
    | inr behind ↦ elim (Bool-cases c.limit_reached) [
      | inl over ↦
          rw (behind, over)
            (record {
              in_step = sym over ∙ h;
              one_more = refl;
              emits = λ xs.
                  remaining_none limit offset c.match_count c.emitted (s ∷ xs) (ground arith)
                    (ground arith)
                  ∙ sym (
                      remaining_none limit offset (c.match_count + 1) c.emitted xs (ground arith)
                        (ground arith));
            })
      | inr going ↦
          rw (behind, going)
            (record {
              in_step = refl;
              one_more = refl;
              emits = λ xs.
                  remaining_emit limit offset c.match_count c.emitted s xs (ground arith)
                    (λ k. ground arith);
            })
    ]
  ]

  -- The loop emits what is left of the page among the matches, and keeps every failure in its place.
  record Emits (c : Counters) (rs : List (Result Summary)) (r : List (Result Summary) × ℕ)
      : Type 0 where
    shown : summaries r.0 ≡ left c (keep p (summaries rs))
    failed : failures r.0 ≡ failures rs
    counted : r.1 ≡ c.match_count + length (keep p (summaries rs))

  emitted_or :
      (b : Bool) (s : Summary) (out : List (Result Summary))
      → summaries (if b then ok s ∷ out else out) ≡ (if b then s ∷ summaries out else summaries out)
  emitted_or true s out = refl
  emitted_or false s out = refl

  failures_or :
      (b : Bool) (s : Summary) (out : List (Result Summary))
      → failures (if b then ok s ∷ out else out) ≡ failures out
  failures_or true s out = refl
  failures_or false s out = refl

  filter_loop-Emits :
      (rs : List (Result Summary)) (c : Counters)
      → InStep c
      → Emits c rs (filter_loop p limit offset rs c)
  unfolding filter_loop
  filter_loop-Emits [] c h = record {
    shown = sym (remaining_empty limit offset c.match_count c.emitted);
    failed = refl;
    counted = omega arith;
  }
  filter_loop-Emits (err e ∷ rs) c h =
      let rest = filter_loop-Emits rs c h in
      record { shown = rest.shown; failed = ap (◌∷◌ e) rest.failed; counted = rest.counted }
  filter_loop-Emits (ok s ∷ rs) c h = elim (Bool-cases (p s)) [
    | inr other ↦
        let rest = filter_loop-Emits rs c h in
        let kept : keep p (summaries (ok s ∷ rs)) ≡ keep p (summaries rs) = rw other refl in
        rw other (record {
          shown = rest.shown ∙ ap (left c) (sym kept);
          failed = rest.failed;
          counted = rest.counted ∙ ap (λ l. c.match_count + length l) (sym kept);
        })
    | inl hit ↦
        let next = (count_match limit offset c).0 in
        let emit = (count_match limit offset c).1 in
        let k = count_match-Counts c s h in
        let rest = filter_loop-Emits rs next k.in_step in
        let out = (filter_loop p limit offset rs next).0 in
        let more = keep p (summaries rs) in
        let kept : keep p (summaries (ok s ∷ rs)) ≡ s ∷ more = rw hit refl in
        rw hit (record {
          shown =
              emitted_or emit s out
              ∙ ap (λ l. if emit then s ∷ l else l) rest.shown
              ∙ sym (k.emits more)
              ∙ ap (left c) (sym kept);
          failed = failures_or emit s out ∙ rest.failed;
          counted = omega (arith, rest.counted, k.one_more, ap length kept);
        })
  ]

-- The listing is refused if the offset is not 0 and not below the number of tickets that match.
-- Otherwise its tickets are the page of those, without the first `offset` ones and up to the limit,
-- and every parse error is in it.
pub filter_ticket_results_lem :
    (results : List (Result Summary)) (o : ListTicketsOptions)
    → (let matched = keep (λ s. ticket_summary_matches s o) (summaries results) in
        let beyond = not (o.offset == 0) && leb (length matched) o.offset in
        ((beyond ≡ true) × (filter_ticket_results results o ≡ err offset_out_of_bounds))
        ⊎ ((beyond ≡ false)
            × ((out : List (Result Summary)) × (filter_ticket_results results o ≡ ok out)
                × (summaries out ≡ page o.limit o.offset matched)
                × (failures out ≡ failures results))))
unfolding filter_ticket_results
filter_ticket_results_lem results o =
    let p = λ (s : Summary). ticket_summary_matches s o in
    let matched = keep p (summaries results) in
    let run = filter_loop p o.limit o.offset results fresh_counters in
    let e = filter_loop-Emits p o.limit o.offset results fresh_counters (ground arith) in
    let count : run.1 ≡ length matched = omega (arith, e.counted) in
    elim (Bool-cases (not (o.offset == 0) && leb (length matched) o.offset)) [
      | inl beyond ↦ inl (beyond, rw (count, beyond) refl)
      | inr within ↦ inr (
        within,
        (
          run.0,
          rw (count, within) refl,
          e.shown ∙ remaining_all o.limit o.offset matched,
          e.failed,
        ),
      )
    ]
