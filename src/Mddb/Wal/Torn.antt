-- ===== src/Mddb/Wal/Torn.antt =====
-- What `readWalState` makes of a log that was not written to its end.
use agent_task.Prelude.{
  ℕ, zero, suc, ◌+◌, ◌-◌, ◌*◌, ◌^◌, ◌≤◌, ◌<◌, ◌≡◌, ◌⊎◌, inl, inr, refl, sym, ap, ◌∙◌, true, false,
  List, [], ◌∷◌, ◌++◌, ltb, ◌==◌, Bool-cases, take, drop, length, length-append, length-take,
  get_or, All, arith, subst,
}
use agent_task.Text.{Bytes, codes, equal, equal_iff, get_le}
use agent_task.Mddb.Outcome.{returned}
use agent_task.Mddb.Wal.{empty_wal, uncommitted, wal_magic, footer, field, read_wal_state}
use agent_task.Mddb.Wal.Footer.{length-footer, magic-footer}

module _ {ℓ} {A : Type ℓ} where
  get_or-take : (n i : ℕ) (xs : List A) (d : A) → i < n → get_or (take n xs) i d ≡ get_or xs i d
  get_or-take zero i xs d h = elim h [ ]
  get_or-take (suc n) i [] d h = refl
  get_or-take (suc n) zero (x ∷ xs) d h = refl
  get_or-take (suc n) (suc i) (x ∷ xs) d h = get_or-take n i xs d (omega (arith, h))

  get_or-drop : (n i : ℕ) (xs : List A) (d : A) → get_or (drop n xs) i d ≡ get_or xs (n + i) d
  get_or-drop zero i xs d = ap (λ k. get_or xs k d) (omega arith)
  get_or-drop (suc n) i [] d = refl
  get_or-drop (suc n) i (x ∷ xs) d =
      let e : suc n + i ≡ suc (n + i) = omega arith in rw e (get_or-drop n i xs d)

  get_or-append_left :
      (xs ys : List A) (i : ℕ) (d : A) → i < length xs → get_or (xs ++ ys) i d ≡ get_or xs i d
  get_or-append_left [] ys i d h = elim h [ ]
  get_or-append_left (x ∷ xs) ys zero d h = refl
  get_or-append_left (x ∷ xs) ys (suc i) d h = get_or-append_left xs ys i d (omega (arith, h))

  get_or-append_right :
      (xs ys : List A) (i : ℕ) (d : A) → get_or (xs ++ ys) (length xs + i) d ≡ get_or ys i d
  get_or-append_right [] ys i d = ap (λ k. get_or ys k d) (omega arith)
  get_or-append_right (x ∷ xs) ys i d =
      let e : suc (length xs) + i ≡ suc (length xs + i) = omega arith in
      rw e (get_or-append_right xs ys i d)

  get_or-All {κ} :
      (P : A → Type κ) (xs : List A) (i : ℕ) (d : A) → All P xs → i < length xs → P (get_or xs i d)
  get_or-All P [] i d a h = elim h [ ]
  get_or-All P (x ∷ xs) zero d (p, a) h = p
  get_or-All P (x ∷ xs) (suc i) d (p, a) h = get_or-All P xs i d a (omega (arith, h))

-- The last byte of a small number is 0.
top_byte : (n : ℕ) (bs : Bytes) → get_le bs < 256 ^ n → get_or bs n 0 ≡ 0
unfolding get_le
top_byte n [] h = refl
top_byte zero (b ∷ bs) h = omega (arith, h)
top_byte (suc n) (b ∷ bs) h =
    let e : 256 ^ suc n ≡ 256 * 256 ^ n = omega arith in top_byte n bs (omega (arith, e, h))

abbrev IsNot : ℕ → ℕ → Type 0
IsNot c b = (b == c) ≡ false

magic_no_zero : All (IsNot 0) wal_magic
magic_no_zero = (refl, (refl, (refl, (refl, (refl, (refl, (refl, (refl, tt))))))))

-- Only the first byte of the magic text is its first letter.
magic_one_first : All (IsNot b'M') (codes "DDB0001")
magic_one_first = (refl, (refl, (refl, (refl, (refl, (refl, (refl, tt)))))))

eq-IsNot : (c b : ℕ) → IsNot c b → b ≡ c → ⊥
eq-IsNot c b h e = ground arith

-- The last 32 bytes of a log that breaks off in its footer, as many as `j` behind its start.
module _ (body : Bytes) (no_zero : All (IsNot 0) body) (short : length body < 256 ^ 7) (j : ℕ)
    (inside : j < length body) where
  whole : Bytes
  whole = body ++ footer body

  tail : Bytes
  unfolding whole
  tail = drop j (take (j + 32) whole)

  byte-tail : (i : ℕ) → i < 32 → get_or tail i 0 ≡ get_or whole (j + i) 0
  unfolding tail
  byte-tail i h =
      get_or-drop j i (take (j + 32) whole) 0
      ∙ get_or-take (j + 32) (j + i) whole 0 (omega (arith, h))

  byte-magic :
      take 8 tail ≡ wal_magic → (i : ℕ) → i < 8 → get_or whole (j + i) 0 ≡ get_or wal_magic i 0
  byte-magic m i h =
      sym (byte-tail i (omega (arith, h)))
      ∙ sym (get_or-take 8 i tail 0 h)
      ∙ ap (λ t. get_or t i 0) m

  byte-top : get_le (field 8 8 tail) ≤ j → get_or whole (j + 15) 0 ≡ 0
  byte-top h =
      sym (byte-tail 15 (omega arith))
      ∙ sym (get_or-drop 8 7 tail 0)
      ∙ sym (get_or-take 8 7 (drop 8 tail) 0 (omega arith))
      ∙ top_byte 7 (field 8 8 tail) (omega (arith, h, inside, short))

  byte-body : (i : ℕ) → i < length body → get_or whole i 0 ≡ get_or body i 0
  unfolding whole
  byte-body i h = get_or-append_left body (footer body) i 0 h

  byte-footer : (t : ℕ) → t < 8 → get_or whole (length body + t) 0 ≡ get_or wal_magic t 0
  unfolding whole
  byte-footer t h =
      get_or-append_right body (footer body) t 0
      ∙ sym (get_or-take 8 t (footer body) 0 h)
      ∙ ap (λ l. get_or l t 0) (magic-footer body)

  -- The magic text of a broken footer would begin inside the body, and its length would end there.
  no_footer : take 8 tail ≡ wal_magic → get_le (field 8 8 tail) ≤ j → ⊥
  no_footer m n = elim (Bool-cases (ltb (j + 15) (length body))) [
    | inl early ↦
        let i : j + 15 < length body = ground arith in
        eq-IsNot 0 (get_or body (j + 15) 0) (get_or-All (IsNot 0) body (j + 15) 0 no_zero i)
          (sym (byte-body (j + 15) i) ∙ byte-top n)
    | inr late ↦ elim (Bool-cases (ltb (j + 15 - length body) 8)) [
      | inl in_magic ↦
          let t : j + 15 - length body < 8 = ground arith in
          let at : length body + (j + 15 - length body) ≡ j + 15 = ground arith in
          eq-IsNot 0 (get_or wal_magic (j + 15 - length body) 0)
            (get_or-All (IsNot 0) wal_magic (j + 15 - length body) 0 magic_no_zero t)
            (sym (byte-footer (j + 15 - length body) t)
              ∙ ap (λ k. get_or whole k 0) at
              ∙ byte-top n)
      | inr behind ↦
          let s = length body - j - 1 in
          let small : suc s < 8 = ground arith in
          let at : length body + 0 ≡ j + suc s = ground arith in
          let e : get_or wal_magic (suc s) 0 ≡ b'M' =
            sym (byte-magic m (suc s) small)
            ∙ sym (ap (λ k. get_or whole k 0) at)
            ∙ byte-footer 0 (omega arith) in
          eq-IsNot b'M' (get_or (codes "DDB0001") s 0)
            (get_or-All (IsNot b'M') (codes "DDB0001") s 0 magic_one_first (omega (arith, small))) e
    ]
  ]

-- The log holds nothing that would be replayed.
abbrev pub IsDropped : Bytes → Type 0
IsDropped file =
    (read_wal_state file ≡ returned (empty_wal, []))
    ⊎ (read_wal_state file ≡ returned (uncommitted, []))

-- A file whose footer fails one of the first tests is dropped.
dropped :
    (file : Bytes)
    → (equal (take 8 (drop (length file - 32) file)) wal_magic ≡ true
        → get_le (field 8 8 (drop (length file - 32) file)) ≤ length file - 32
        → ltb (length file) 32 ≡ false
        → ⊥)
    → IsDropped file
unfolding read_wal_state
dropped file h =
    let tail = drop (length file - 32) file in
    elim (Bool-cases (length file == 0)) [
      | inl e ↦ inl (rw e refl)
      | inr e ↦ elim (Bool-cases (ltb (length file) 32)) [
        | inl f ↦ inr (rw (e, f) refl)
        | inr f ↦ elim (Bool-cases (equal (take 8 tail) wal_magic)) [
          | inr g ↦ inr (rw (e, f, g) refl)
          | inl g ↦ elim (Bool-cases (ltb (length file - 32) (get_le (field 8 8 tail)))) [
            | inl k ↦ inr (rw (e, f, g, k) (ground arith))
            | inr k ↦ absurd (h g (ground arith) f)
          ]
        ]
      ]
    ]

-- A log without zero bytes in its body, shorter than 2 to the 56, of which only a part was written, is
-- dropped: no transaction is replayed in part.
pub torn_write :
    (body : Bytes) (written : ℕ)
    → All (λ b. (b == 0) ≡ false) body
    → length body < 2 ^ 56
    → written < length (body ++ footer body)
    → IsDropped (take written (body ++ footer body))
unfolding tail whole
torn_write body written z s h =
    let file = take written (body ++ footer body) in
    let size : length (body ++ footer body) ≡ length body + 32 =
      omega (arith, length-append body (footer body), length-footer body) in
    let len : length file ≡ written = omega (arith, length-take written (body ++ footer body), h) in
    dropped file (λ m n long.
      let j = written - 32 in
      let long' : 32 ≤ written = ground arith in
      let split : written ≡ j + 32 = omega (arith, long') in
      let same : drop (length file - 32) file ≡ drop j (take (j + 32) (body ++ footer body)) =
        ap (λ k. drop (k - 32) file) len ∙ ap (λ k. drop j (take k (body ++ footer body))) split in
      let n' : get_le (field 8 8 (drop (length file - 32) file)) ≤ j = omega (arith, n, len) in
      no_footer body z s j (omega (arith, h, size, split))
        (sym (ap (take 8) same) ∙ (equal_iff (take 8 (drop (length file - 32) file)) wal_magic).0 m)
        (subst (λ t. get_le (field 8 8 t) ≤ j) same n'))
