-- ===== src/Listing/Pages.antt =====
-- Both filters are the same three steps: keep what matches, skip the offset, stop at the limit.
use agent_task.Prelude.{
  ℕ, zero, suc, ◌+◌, ◌-◌, ◌≤◌, ◌<◌, ◌≡◌, refl, sym, ap, ◌∙◌, Bool, false, List, [], ◌∷◌, ◌==◌,
  if◌then◌else◌, take, drop, drop_nothing, inl, inr, arith, Bool-cases,
}

module _ {ℓ} {A : Type ℓ} where
  abbrev pub keep : (A → Bool) → List A → List A
  keep p [] = []
  keep p (x ∷ xs) = let rest = keep p xs in if p x then x ∷ rest else rest

  -- A limit of 0 is none.
  abbrev pub up_to : ℕ → List A → List A
  up_to limit xs = if limit == 0 then xs else take limit xs

  abbrev pub page : ℕ → ℕ → List A → List A
  page limit offset xs = up_to limit (drop offset xs)

module _ {ℓ} {A : Type ℓ} where
  drop_more :
      (n k : ℕ) (x : A) (xs : List A) → k < n → drop (n - k) (x ∷ xs) ≡ drop (n - (k + 1)) xs
  drop_more n k x xs h =
      let e : n - k ≡ suc (n - (k + 1)) = omega (arith, h) in ap (λ j. drop j (x ∷ xs)) e

  drop_none : (n k : ℕ) (xs : List A) → n ≤ k → drop (n - k) xs ≡ xs
  drop_none n k xs h = let e : n - k ≡ 0 = omega (arith, h) in ap (λ j. drop j xs) e

  take_more :
      (n k : ℕ) (x : A) (xs : List A) → k < n → take (n - k) (x ∷ xs) ≡ x ∷ take (n - (k + 1)) xs
  take_more n k x xs h =
      let e : n - k ≡ suc (n - (k + 1)) = omega (arith, h) in ap (λ j. take j (x ∷ xs)) e

  take_none : (n k : ℕ) (xs : List A) → n ≤ k → take (n - k) xs ≡ []
  take_none n k xs h = let e : n - k ≡ 0 = omega (arith, h) in ap (λ j. take j xs) e

  -- What a loop has still to emit, with `matched` matches and `emitted` results behind it.
  abbrev pub remaining : ℕ → ℕ → ℕ → ℕ → List A → List A
  remaining limit offset matched emitted xs =
      let rest = drop (offset - matched) xs in
      if limit == 0 then rest else take (limit - emitted) rest

  module _ (limit offset matched emitted : ℕ) (x : A) (xs : List A) where
    pub remaining_skip :
        matched < offset
        → remaining limit offset matched emitted (x ∷ xs)
          ≡ remaining limit offset (matched + 1) emitted xs
    remaining_skip h =
        ap (λ l. if limit == 0 then l else take (limit - emitted) l)
          (drop_more offset matched x xs h)

    pub remaining_emit :
        offset ≤ matched
        → (limit == 0 ≡ false → emitted < limit)
        → remaining limit offset matched emitted (x ∷ xs)
          ≡ x ∷ remaining limit offset (matched + 1) (emitted + 1) xs
    remaining_emit h k =
        ap (λ l. if limit == 0 then l else take (limit - emitted) l)
          (drop_none offset matched (x ∷ xs) h)
        ∙ elim (Bool-cases (limit == 0)) [
          | inl unlimited ↦
              rw unlimited (ap (◌∷◌ x) (sym (drop_none offset (matched + 1) xs (omega (arith, h)))))
          | inr limited ↦ rw limited (
              take_more limit emitted x xs (k limited)
              ∙ ap (λ l. x ∷ take (limit - (emitted + 1)) l)
                  (sym (drop_none offset (matched + 1) xs (omega (arith, h)))))
        ]

  pub remaining_none :
      (limit offset matched emitted : ℕ) (xs : List A)
      → limit == 0 ≡ false
      → limit ≤ emitted
      → remaining limit offset matched emitted xs ≡ []
  remaining_none limit offset matched emitted xs h k =
      rw h (take_none limit emitted (drop (offset - matched) xs) k)

  pub remaining_all :
      (limit offset : ℕ) (xs : List A) → remaining limit offset 0 0 xs ≡ page limit offset xs
  remaining_all limit offset xs =
      let e : offset - 0 ≡ offset = omega arith in
      let f : limit - 0 ≡ limit = omega arith in rw (e, f) refl

  take_nothing : (n : ℕ) → take {A = A} n [] ≡ []
  take_nothing zero = refl
  take_nothing (suc n) = refl

  pub remaining_empty :
      (limit offset matched emitted : ℕ) → remaining limit offset matched emitted [] ≡ []
  remaining_empty limit offset matched emitted =
      ap (λ l. if limit == 0 then l else take (limit - emitted) l) (drop_nothing (offset - matched))
      ∙ elim (Bool-cases (limit == 0)) [
        | inl unlimited ↦ rw unlimited refl
        | inr limited ↦ rw limited (take_nothing (limit - emitted))
      ]
