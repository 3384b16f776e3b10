-- ===== src/Cache/Slices.antt =====
-- Slices of the mapped file: a slice that leaves the bytes panics, which is `none`.
use agent_task.Prelude.{
  ℕ, zero, suc, ◌+◌, ◌≤◌, ◌<◌, ◌≡◌, refl, sym, ap, ◌∙◌, true, Option, none, some, List, [], ◌∷◌,
  ◌++◌, leb, ◌==◌, if◌then◌else◌, take, drop, length, length-append, drop_behind, take_front, arith,
  get_elem?,
}
use agent_task.Text.{Bytes}

infixl 5 ◌>>=◌
abbrev pub ◌>>=◌ {ℓ κ} : {A : Type ℓ} {B : Type κ} → Option A → (A → Option B) → Option B
none >>= next = none
some a >>= next = next a

-- `data[from : from+n]`.
unfoldable pub slice : ℕ → ℕ → Bytes → Option Bytes
slice from n buf = if leb (from + n) (length buf) then some (take n (drop from buf)) else none

-- `data[from:]`.
unfoldable pub slice_from : ℕ → Bytes → Option Bytes
slice_from from buf = if leb from (length buf) then some (drop from buf) else none

-- The bytes in front of the first zero, all of them if there is none.
abbrev pub until_zero : Bytes → Bytes
until_zero [] = []
until_zero (c ∷ s) = let rest = until_zero s in if c == 0 then [] else c ∷ rest

module _ (n : ℕ) (before after : Bytes) (h : length before ≡ n) where
  pub slice_behind : (m k : ℕ) → slice (n + m) k (before ++ after) ≡ slice m k after
  unfolding slice
  slice_behind m k =
      let same : leb (n + m + k) (length (before ++ after)) ≡ leb (m + k) (length after) =
        ground (arith, length-append before after, h) in
      rw (same, drop_behind n m before after h) refl

  pub slice_front : slice 0 n (before ++ after) ≡ some before
  unfolding slice
  slice_front =
      let fits : leb (0 + n) (length (before ++ after)) ≡ true =
        ground (arith, length-append before after, h) in
      rw (fits, take_front n before after h) refl

  pub slice_from_behind : slice_from n (before ++ after) ≡ some after
  unfolding slice_from
  slice_from_behind =
      let fits : leb n (length (before ++ after)) ≡ true =
        ground (arith, length-append before after, h) in
      let here : n + 0 ≡ n = omega arith in
      rw fits
        (ap some (ap (λ i. drop i (before ++ after)) (sym here) ∙ drop_behind n 0 before after h))

-- A slice inside the bytes is there, and as long as it says.
pub slice_inside :
    (from n : ℕ) (buf : Bytes)
    → from + n ≤ length buf
    → slice from n buf ≡ some (take n (drop from buf))
unfolding slice
slice_inside from n buf h =
    let fits : leb (from + n) (length buf) ≡ true = ground arith in rw fits refl

module _ {ℓ} {A : Type ℓ} where
  pub get_elem?_behind :
      (n m : ℕ) (xs ys : List A) → length xs ≡ n → get_elem? (xs ++ ys) (n + m) ≡ get_elem? ys m
  get_elem?_behind n m [] ys h = let e : n + m ≡ m = omega (arith, h) in rw e refl
  get_elem?_behind zero m (x ∷ xs) ys h = absurd (omega (arith, h))
  get_elem?_behind (suc n) m (x ∷ xs) ys h =
      let e : suc n + m ≡ suc (n + m) = omega arith in
      rw e (get_elem?_behind n m xs ys (omega (arith, h)))

  pub get_elem?_inside :
      (i : ℕ) (xs : List A) → suc i ≤ length xs → (x : A) × (get_elem? xs i ≡ some x)
  get_elem?_inside i [] h = absurd (omega (arith, h))
  get_elem?_inside zero (x ∷ xs) h = (x, refl)
  get_elem?_inside (suc i) (x ∷ xs) h = get_elem?_inside i xs (omega (arith, h))

  pub get_elem?_within : (i : ℕ) (xs : List A) {x : A} → get_elem? xs i ≡ some x → i < length xs
  get_elem?_within i [] h = cc h
  get_elem?_within zero (x ∷ xs) h = omega arith
  get_elem?_within (suc i) (x ∷ xs) h = omega (arith, get_elem?_within i xs h)
