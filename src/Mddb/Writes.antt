-- ===== src/Mddb/Writes.antt =====
-- Writes to a map one after the other, and what it takes for doing them again to give the same map.
use agent_task.Prelude.{
  ◌≡◌, refl, ap, Bool, true, false, ◌||◌, Option, List, [], ◌∷◌, ◌++◌, Bool-cases, inl, inr, All,
  arith,
}
use agent_task.Text.{Bytes, equal, equal_iff, equal_refl}
use agent_task.Mddb.World.{update}

module _ {V : Type 0} where
  unfoldable pub write_all : List (Bytes × Option V) → (Bytes → Option V) → Bytes → Option V
  write_all [] f = f
  write_all ((k, v) ∷ ws) f = write_all ws (update f k v)

  pub write_all-append :
      (vs ws : List (Bytes × Option V)) (f : Bytes → Option V)
      → write_all (vs ++ ws) f ≡ write_all ws (write_all vs f)
  unfolding write_all
  write_all-append [] ws f = refl
  write_all-append ((k, v) ∷ vs) ws f = write_all-append vs ws (update f k v)

  unfoldable pub touched : List (Bytes × Option V) → Bytes → Bool
  touched [] j = false
  touched ((k, v) ∷ ws) j = equal k j || touched ws j

  -- The two maps agree where the writes do not go.
  abbrev pub Heals : List (Bytes × Option V) → (Bytes → Option V) → (Bytes → Option V) → Type 0
  Heals ws f g = (k : Bytes) → touched ws k ≡ false → g k ≡ f k

  pub Heals-refl : (ws : List (Bytes × Option V)) (f : Bytes → Option V) → Heals ws f f
  Heals-refl ws f k h = refl

  -- Then the writes make the same map of them.
  pub write_all-Heals :
      (ws : List (Bytes × Option V)) (f g : Bytes → Option V)
      → Heals ws f g
      → (j : Bytes) → write_all ws g j ≡ write_all ws f j
  unfolding write_all touched
  write_all-Heals [] f g h j = h j refl
  write_all-Heals ((k, v) ∷ ws) f g h j =
      write_all-Heals ws (update f k v) (update g k v)
        (λ i u. elim (Bool-cases (equal k i)) [
          | inl same ↦ rw same refl
          | inr other ↦ rw other (h i (rw other u))
        ])
        j

  -- A write that is among them keeps a map such.
  pub update-Heals :
      (ws : List (Bytes × Option V)) (f g : Bytes → Option V) (k : Bytes) (v : Option V)
      → touched ws k ≡ true
      → Heals ws f g
      → Heals ws f (update g k v)
  update-Heals ws f g k v t h j u = elim (Bool-cases (equal k j)) [
    | inl same ↦ cc (t, ap (touched ws) ((equal_iff k j).0 same), u)
    | inr other ↦ rw other (h j u)
  ]

  -- So do some of them, one after the other.
  pub write_all_part :
      (all ws : List (Bytes × Option V)) (f g : Bytes → Option V)
      → All (λ w. touched all w.0 ≡ true) ws
      → Heals all f g
      → Heals all f (write_all ws g)
  unfolding write_all
  write_all_part all [] f g a h = h
  write_all_part all ((k, v) ∷ ws) f g (t, a) h =
      write_all_part all ws f (update g k v) a (update-Heals all f g k v t h)

  touched-cons :
      (w : Bytes × Option V) (all ws : List (Bytes × Option V))
      → All (λ v. touched all v.0 ≡ true) ws
      → All (λ v. touched (w ∷ all) v.0 ≡ true) ws
  unfolding touched
  touched-cons w all [] a = tt
  touched-cons (k, v) all ((j, u) ∷ ws) (t, a) = (ground arith, touched-cons (k, v) all ws a)

  pub touched_self : (ws : List (Bytes × Option V)) → All (λ v. touched ws v.0 ≡ true) ws
  unfolding touched
  touched_self [] = tt
  touched_self ((k, v) ∷ ws) = (rw (equal_refl k) refl, touched-cons (k, v) ws ws (touched_self ws))

  -- Doing all of the writes again changes nothing.
  pub write_all-write_all :
      (ws : List (Bytes × Option V)) (f : Bytes → Option V) (j : Bytes)
      → write_all ws (write_all ws f) j ≡ write_all ws f j
  write_all-write_all ws f =
      write_all-Heals ws f (write_all ws f)
        (write_all_part ws ws f f (touched_self ws) (Heals-refl ws f))
