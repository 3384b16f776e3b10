-- ===== src/Ident/Order.antt =====
-- Ids sort as the times at which they were made.
use native.Mathlib.Nat.{pow-suc}
use native.Mathlib.Decide.{dec_lt}
use agent_task.Prelude.{
  ℕ, zero, suc, ◌+◌, ◌*◌, ◌/◌, ◌%◌, ◌^◌, ◌<◌, ◌≡◌, ◌⊎◌, refl, ap, Bool, true, ◌&&◌, [], ◌∷◌, inl,
  inr, arith, ltb,
}
use agent_task.Text.{Bytes, less}
use agent_task.Ident.{crockford, generate_id}

-- The digits of a number in base 32, by repeated division.
digits_onto : ℕ → ℕ → Bytes → Bytes
digits_onto zero n out = out
digits_onto (suc k) n out = digits_onto k (n / 32) (crockford (n % 32) ∷ out)

-- The test holds at every number below the bound.
everywhere : (ℕ → Bool) → ℕ → Bool
everywhere test zero = true
everywhere test (suc top) = everywhere test top && test top

everywhere_at : (test : ℕ → Bool) (top i : ℕ) → i < top → everywhere test top ≡ true → test i ≡ true
unfolding everywhere
everywhere_at test zero i below all_hold = absurd (omega arith)
everywhere_at test (suc top) i below all_hold = ground (arith, everywhere_at test top i)

-- The alphabet is in the order of its bytes.
above_all : ℕ → Bool
above_all b = everywhere (λ a. ltb (crockford a) (crockford b)) b

alphabet_table : everywhere above_all 32 ≡ true
unfolding above_all everywhere crockford
alphabet_table = refl

crockford_mono : (a b : ℕ) → a < b → b < 32 → ltb (crockford a) (crockford b) ≡ true
unfolding above_all
crockford_mono a b h k =
    everywhere_at (λ x. ltb (crockford x) (crockford b)) b a h
      (everywhere_at above_all 32 b k alphabet_table)

less-cons_lt : (x y : ℕ) (a b : Bytes) → ltb x y ≡ true → less (x ∷ a) (y ∷ b) ≡ true
unfolding less
less-cons_lt x y a b h = ground arith

less-cons_eq : (x : ℕ) (a b : Bytes) → less a b ≡ true → less (x ∷ a) (x ∷ b) ≡ true
unfolding less
less-cons_eq x a b h = ground arith

quotient_bound : (k n : ℕ) → n < 32 ^ suc k → n / 32 < 32 ^ k
quotient_bound k n h = omega (arith, pow-suc 32 k)

quotient_split : (m n : ℕ) → m < n → (m / 32 < n / 32) ⊎ ((m / 32 ≡ n / 32) × (m % 32 < n % 32))
quotient_split m n h = elim (dec_lt (m / 32) (n / 32)) [
  | yes p ↦ inl p
  | no p ↦ inr (omega arith, omega arith)
]

-- One more digit in front of the texts.
digit_split :
    (m n : ℕ) (a b : Bytes)
    → (m < n) ⊎ ((m ≡ n) × (less a b ≡ true))
    → (m / 32 < n / 32)
      ⊎ ((m / 32 ≡ n / 32) × (less (crockford (m % 32) ∷ a) (crockford (n % 32) ∷ b) ≡ true))
digit_split m n a b (inl lt) = elim (quotient_split m n lt) [
  | inl p ↦ inl p
  | inr (e, p) ↦ inr (
    e,
    less-cons_lt (crockford (m % 32)) (crockford (n % 32)) a b
        (crockford_mono (m % 32) (n % 32) p (omega arith)),
  )
]
digit_split m n a b (inr (e, l)) =
    inr (ap (λ x. x / 32) e, rw e (less-cons_eq (crockford (n % 32)) a b l))

-- The numbers decide, and what stands behind the digits where they are equal.
less-digits_onto :
    (k m n : ℕ) (a b : Bytes)
    → n < 32 ^ k
    → (m < n) ⊎ ((m ≡ n) × (less a b ≡ true))
    → less (digits_onto k m a) (digits_onto k n b) ≡ true
unfolding digits_onto
less-digits_onto zero m n a b h (inl lt) = absurd (omega arith)
less-digits_onto zero m n a b h (inr (e, l)) = l
less-digits_onto (suc k) m n a b h c =
    less-digits_onto k (m / 32) (n / 32) (crockford (m % 32) ∷ a) (crockford (n % 32) ∷ b)
      (quotient_bound k n h) (digit_split m n a b c)

-- The encoder's groups of five bits are the digits of the number, shifted by the three bits that
-- fill the last group up.
generate_id-digits : (sec : ℕ) → sec < 2 ^ 32 → generate_id sec ≡ digits_onto 7 (sec * 8) []
unfolding generate_id digits_onto
generate_id-digits sec h =
    let e0 : sec / 256 / 256 / 256 % 256 / 8 ≡ sec * 8 / 32 / 32 / 32 / 32 / 32 / 32 % 32 =
      omega arith in
    let e1 : sec / 256 / 256 / 256 % 256 % 8 * 4 + sec / 256 / 256 % 256 / 64
        ≡ sec * 8 / 32 / 32 / 32 / 32 / 32 % 32 =
      omega arith in
    let e2 : sec / 256 / 256 % 256 / 2 % 32 ≡ sec * 8 / 32 / 32 / 32 / 32 % 32 = omega arith in
    let e3 : sec / 256 / 256 % 256 % 2 * 16 + sec / 256 % 256 / 16 ≡ sec * 8 / 32 / 32 / 32 % 32 =
      omega arith in
    let e4 : sec / 256 % 256 % 16 * 2 + sec % 256 / 128 ≡ sec * 8 / 32 / 32 % 32 = omega arith in
    let e5 : sec % 256 / 4 % 32 ≡ sec * 8 / 32 % 32 = omega arith in
    let e6 : sec % 256 % 4 * 8 ≡ sec * 8 % 32 = omega arith in
    λ i.
      crockford (e0 i)
      ∷ crockford (e1 i)
      ∷ crockford (e2 i)
      ∷ crockford (e3 i)
      ∷ crockford (e4 i)
      ∷ crockford (e5 i)
      ∷ crockford (e6 i)
      ∷ []

-- Of two times before 2106 the later one has the id that sorts behind.
pub less-generate_id :
    (sec later : ℕ)
    → sec < later
    → later < 2 ^ 32
    → less (generate_id sec) (generate_id later) ≡ true
less-generate_id sec later h k =
    rw (generate_id-digits sec (omega arith), generate_id-digits later k)
      (less-digits_onto 7 (sec * 8) (later * 8) [] [] (omega arith) (inl (omega arith)))
