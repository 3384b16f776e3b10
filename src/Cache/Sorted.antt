-- ===== src/Cache/Sorted.antt =====
-- The entries in the order of their names, as the index holds them: sorting changes no lookup.
use agent_task.Prelude.{
  ℕ, zero, suc, ◌<◌, ◌≡◌, refl, sym, ap, ◌∙◌, subst, true, false, none, some, List, [], ◌∷◌,
  if◌then◌else◌, inl, inr, Bool-cases, length, All, get_elem?, arith,
}
use agent_task.Text.{
  Bytes, equal, equal_iff, equal_refl, equal_comm, less, less_irrefl, less_trans, less_total,
}
use agent_task.Cache.{RawCacheEntry}
use agent_task.Cache.Writer.{insert_entry, sort_entries, find_entry}

abbrev pub IsSorted : List RawCacheEntry → Type 0
IsSorted [] = Unit
IsSorted (e ∷ entries) = All (λ f. less e.filename f.filename ≡ true) entries × IsSorted entries

-- No name twice, as in a map.
abbrev pub IsDistinct : List RawCacheEntry → Type 0
IsDistinct [] = Unit
IsDistinct (e ∷ entries) =
    All (λ f. equal e.filename f.filename ≡ false) entries × IsDistinct entries

pub All-map :
    (P Q : RawCacheEntry → Type 0) (entries : List RawCacheEntry)
    → ((e : RawCacheEntry) → P e → Q e)
    → All P entries
    → All Q entries
All-map P Q [] f h = tt
All-map P Q (e ∷ entries) f (h, hs) = (f e h, All-map P Q entries f hs)

pub All-get :
    (P : RawCacheEntry → Type 0) (entries : List RawCacheEntry) (i : ℕ) {e : RawCacheEntry}
    → All P entries
    → get_elem? entries i ≡ some e
    → P e
All-get P [] i h g = cc g
All-get P (f ∷ entries) zero (h, hs) g = let same : f ≡ _ = cc g in subst P same h
All-get P (f ∷ entries) (suc i) (h, hs) g = All-get P entries i hs g

insert-All :
    (P : RawCacheEntry → Type 0) (e : RawCacheEntry) (entries : List RawCacheEntry)
    → P e
    → All P entries
    → All P (insert_entry e entries)
unfolding insert_entry
insert-All P e [] p h = (p, tt)
insert-All P e (f ∷ entries) p (h, hs) = elim (Bool-cases (less f.filename e.filename)) [
  | inl later ↦ rw later (h, insert-All P e entries p hs)
  | inr first ↦ rw first (p, (h, hs))
]

pub sort-All :
    (P : RawCacheEntry → Type 0) (entries : List RawCacheEntry)
    → All P entries
    → All P (sort_entries entries)
unfolding sort_entries
sort-All P [] h = tt
sort-All P (e ∷ entries) (h, hs) = insert-All P e (sort_entries entries) h (sort-All P entries hs)

length-insert :
    (e : RawCacheEntry) (entries : List RawCacheEntry)
    → length (insert_entry e entries) ≡ suc (length entries)
unfolding insert_entry
length-insert e [] = refl
length-insert e (f ∷ entries) = ground (arith, length-insert e entries)

pub length-sort : (entries : List RawCacheEntry) → length (sort_entries entries) ≡ length entries
unfolding sort_entries
length-sort [] = refl
length-sort (e ∷ entries) = length-insert e (sort_entries entries) ∙ ap suc (length-sort entries)

insert-IsSorted :
    (e : RawCacheEntry) (entries : List RawCacheEntry)
    → All (λ f. equal e.filename f.filename ≡ false) entries
    → IsSorted entries
    → IsSorted (insert_entry e entries)
unfolding insert_entry
insert-IsSorted e [] other sorted = (tt, tt)
insert-IsSorted e (f ∷ entries) (unlike, other) (above, sorted) =
    elim (Bool-cases (less f.filename e.filename)) [
      | inl later ↦
          rw later (insert-All _ e entries later above, insert-IsSorted e entries other sorted)
      | inr first ↦
          let below : less e.filename f.filename ≡ true =
            less_total f.filename e.filename (equal_comm f.filename e.filename ∙ unlike) first in
          rw first
            ((below, All-map _ _ entries (λ g h. less_trans _ _ _ below h) above), (above, sorted))
    ]

pub sort-IsSorted :
    (entries : List RawCacheEntry) → IsDistinct entries → IsSorted (sort_entries entries)
unfolding sort_entries
sort-IsSorted [] d = tt
sort-IsSorted (e ∷ entries) (other, d) =
    insert-IsSorted e (sort_entries entries) (sort-All _ entries other) (sort-IsSorted entries d)

find-insert :
    (name : Bytes) (e : RawCacheEntry) (entries : List RawCacheEntry)
    → All (λ f. equal e.filename f.filename ≡ false) entries
    → find_entry name (insert_entry e entries) ≡ find_entry name (e ∷ entries)
unfolding insert_entry find_entry
find-insert name e [] other = refl
find-insert name e (f ∷ entries) (unlike, other) = elim (Bool-cases (less f.filename e.filename)) [
  | inl later ↦
      rw (later, find-insert name e entries other)
        (elim (Bool-cases (equal name e.filename)) [
          | inl same ↦
              let apart : equal name f.filename ≡ false =
                subst (λ n. equal n f.filename ≡ false) (sym ((equal_iff name e.filename).0 same))
                  unlike in
              rw (same, apart) refl
          | inr no_match ↦ rw no_match refl
        ])
  | inr first ↦ rw first refl
]

pub find-sort :
    (name : Bytes) (entries : List RawCacheEntry)
    → IsDistinct entries
    → find_entry name (sort_entries entries) ≡ find_entry name entries
unfolding sort_entries find_entry
find-sort name [] d = refl
find-sort name (e ∷ entries) (other, d) =
    find-insert name e (sort_entries entries) (sort-All _ entries other)
    ∙ ap (λ rest. if equal name e.filename then some e else rest) (find-sort name entries d)

-- In sorted entries a lower index has a lower name.
pub get-less :
    (entries : List RawCacheEntry) (i j : ℕ) {e f : RawCacheEntry}
    → IsSorted entries
    → i < j
    → get_elem? entries i ≡ some e
    → get_elem? entries j ≡ some f
    → less e.filename f.filename ≡ true
get-less [] i j sorted h gi gj = cc gi
get-less (x ∷ entries) i zero sorted h gi gj = absurd (omega (arith, h))
get-less (x ∷ entries) zero (suc j) {e} {f} (above, sorted) h gi gj =
    let same : x ≡ e = cc gi in
    subst (λ y. less y.filename f.filename ≡ true) same
      (All-get (λ g. less x.filename g.filename ≡ true) entries j above gj)
get-less (x ∷ entries) (suc i) (suc j) (above, sorted) h gi gj =
    get-less entries i j sorted (omega (arith, h)) gi gj

pub less-unequal : (a b : Bytes) → less a b ≡ true → equal b a ≡ false
less-unequal a b h = elim (Bool-cases (equal b a)) [
  | inl same ↦
      let back : less a a ≡ true = subst (λ x. less a x ≡ true) ((equal_iff b a).0 same) h in
      cc (back, less_irrefl a)
  | inr other ↦ other
]

-- The entry at an index is the one of its name.
pub find-get :
    (entries : List RawCacheEntry) (i : ℕ) {e : RawCacheEntry}
    → IsSorted entries
    → get_elem? entries i ≡ some e
    → find_entry e.filename entries ≡ some e
unfolding find_entry
find-get [] i sorted g = cc g
find-get (x ∷ entries) zero {e} (above, sorted) g =
    let same : x ≡ e = cc g in
    subst (λ y. find_entry y.filename (x ∷ entries) ≡ some y) same (rw (equal_refl x.filename) refl)
find-get (x ∷ entries) (suc i) {e} (above, sorted) g =
    let other : equal e.filename x.filename ≡ false =
      less-unequal x.filename e.filename
        (All-get (λ f. less x.filename f.filename ≡ true) entries i above g) in
    rw other (find-get entries i sorted g)

-- A name that no index holds is not found.
pub find-absent :
    (name : Bytes) (entries : List RawCacheEntry)
    → ((i : ℕ) (e : RawCacheEntry) → get_elem? entries i ≡ some e → equal name e.filename ≡ false)
    → find_entry name entries ≡ none
unfolding find_entry
find-absent name [] h = refl
find-absent name (e ∷ entries) h =
    rw (h 0 e refl) (find-absent name entries (λ i f g. h (suc i) f g))
