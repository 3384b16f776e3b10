-- ===== src/Cache/Search.antt =====
-- The binary search of the index finds what is there, and nothing else.
use agent_task.Prelude.{
  ℕ, zero, suc, ◌+◌, ◌-◌, ◌/◌, ◌≤◌, ◌<◌, ◌≡◌, sym, ap, ◌∙◌, subst, true, false, Option, none, some,
  List, ltb, ltb→lt, inl, inr, Bool-cases, length, get_elem?, arith,
}
use agent_task.Text.{Bytes, equal, equal_iff, equal_comm, less, less_trans, less_total}
use agent_task.Cache.{RawCacheEntry}
use agent_task.Cache.Slices.{get_elem?_inside}
use agent_task.Cache.File.{BinaryCache, read_filename, compare_strings, switch, search_loop}
use agent_task.Cache.Sorted.{IsSorted, get-less, less-unequal}

-- What an outcome tells of the entries from `low` to `end`.
abbrev pub Locates : Bytes → List RawCacheEntry → ℕ → ℕ → Option (Option ℕ) → Type 0
Locates name entries low end none = ⊥
Locates name entries low end (some none) =
    (i : ℕ) (e : RawCacheEntry)
    → low ≤ i
    → i < end
    → get_elem? entries i ≡ some e
    → equal name e.filename ≡ false
Locates name entries low end (some (some i)) =
    (e : RawCacheEntry) × (get_elem? entries i ≡ some e) × (name ≡ e.filename)

module _ (name : Bytes) (entries : List RawCacheEntry) (sorted : IsSorted entries) where
  module _ (mid : ℕ) (e : RawCacheEntry) (here : get_elem? entries mid ≡ some e) where
    not_after :
        less name e.filename ≡ true
        → (i : ℕ) (f : RawCacheEntry) → mid ≤ i
        → get_elem? entries i ≡ some f
        → equal name f.filename ≡ false
    not_after h i f from g = elim (Bool-cases (ltb mid i)) [
      | inl above ↦
          let later = get-less entries mid i sorted (ltb→lt mid i above) here g in
          equal_comm name f.filename
          ∙ less-unequal name f.filename (less_trans name e.filename f.filename h later)
      | inr at ↦
          let same_at : i ≡ mid = ground arith in
          let same : e ≡ f = cc (sym here ∙ ap (get_elem? entries) (sym same_at) ∙ g) in
          subst (λ x. equal name x.filename ≡ false) same
            (equal_comm name e.filename ∙ less-unequal name e.filename h)
    ]

    not_before :
        less e.filename name ≡ true
        → (i : ℕ) (f : RawCacheEntry) → i ≤ mid
        → get_elem? entries i ≡ some f
        → equal name f.filename ≡ false
    not_before h i f to g = elim (Bool-cases (ltb i mid)) [
      | inl below ↦
          let earlier = get-less entries i mid sorted (ltb→lt i mid below) g here in
          less-unequal f.filename name (less_trans f.filename e.filename name earlier h)
      | inr at ↦
          let same_at : i ≡ mid = ground arith in
          let same : e ≡ f = cc (sym here ∙ ap (get_elem? entries) (sym same_at) ∙ g) in
          subst (λ x. equal name x.filename ≡ false) same (less-unequal e.filename name h)
    ]

    from_below :
        (low end : ℕ) (r : Option (Option ℕ))
        → less name e.filename ≡ true
        → Locates name entries low mid r
        → Locates name entries low end r
    from_below low end none h l = l
    from_below low end (some (some i)) h l = l
    from_below low end (some none) h l = λ i f from to g. elim (Bool-cases (ltb i mid)) [
      | inl before ↦ l i f from (ltb→lt i mid before) g
      | inr after ↦ not_after h i f (ground arith) g
    ]

    from_above :
        (low end : ℕ) (r : Option (Option ℕ))
        → less e.filename name ≡ true
        → Locates name entries (mid + 1) end r
        → Locates name entries low end r
    from_above low end none h l = l
    from_above low end (some (some i)) h l = l
    from_above low end (some none) h l = λ i f from to g. elim (Bool-cases (ltb mid i)) [
      | inl after ↦ l i f (ground arith) to g
      | inr before ↦ not_before h i f (ground arith) g
    ]

    -- One round, at an entry that the index has.
    step-Locates :
        (low end : ℕ) (below above : Option (Option ℕ))
        → Locates name entries low mid below
        → Locates name entries (mid + 1) end above
        → Locates name entries low end
            (switch (compare_strings name e.filename) (some (some mid)) below above)
    unfolding compare_strings
    step-Locates low end below above lb la = elim (Bool-cases (less name e.filename)) [
      | inl lower ↦ rw lower (from_below low end below lower lb)
      | inr at_least ↦ elim (Bool-cases (less e.filename name)) [
        | inl higher ↦ rw (at_least, higher) (from_above low end above higher la)
        | inr at_most ↦
            let same : name ≡ e.filename = elim (Bool-cases (equal name e.filename)) [
              | inl matching ↦ (equal_iff name e.filename).0 matching
              | inr other ↦ cc (at_most, less_total name e.filename other at_least)
            ] in
            rw (at_least, at_most) (e, here, same)
      ]
    ]

  pub search_loop-Locates :
      (c : BinaryCache)
      → ((i : ℕ) (e : RawCacheEntry)
          → get_elem? entries i ≡ some e
          → read_filename c i ≡ some e.filename)
      → (fuel low end : ℕ) → end ≤ length entries
      → low ≤ end
      → end < low + fuel
      → Locates name entries low end (search_loop c name fuel low end)
  unfolding search_loop
  search_loop-Locates c reads zero low end inside order enough =
      absurd (omega (arith, order, enough))
  search_loop-Locates c reads (suc fuel) low end inside order enough =
      elim (Bool-cases (ltb low end)) [
        | inl go ↦
            let mid = (low + (end - 1)) / 2 in
            let (e, here) = get_elem?_inside mid entries (ground arith) in
            rw (go, reads mid e here)
              (step-Locates mid e here low end _ _
                (search_loop-Locates c reads fuel low mid (ground arith) (ground arith)
                  (ground arith))
                (search_loop-Locates c reads fuel (mid + 1) end inside (ground arith)
                  (ground arith)))
        | inr stop ↦ rw stop (λ i e from to g. absurd (ground arith))
      ]
