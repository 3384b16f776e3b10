-- ===== src/Mddb/Tx/Buffer.antt =====
-- The map of a transaction from ids to operations.
use agent_task.Prelude.{
  ◌≡◌, refl, false, Option, none, some, List, [], ◌∷◌, if◌then◌else◌, arith, sym, ◌∙◌, All, inl,
  inr, Bool-cases, subst,
}
use agent_task.Text.{Bytes, equal, equal_iff, equal_comm}

module _ {V : Type 0} where
  -- `ops[id]`.
  unfoldable pub buffered : List (Bytes × V) → Bytes → Option V
  buffered [] id = none
  buffered ((k, v) ∷ ops) id = let rest = buffered ops id in if equal k id then some v else rest

  -- `ops[id] = v`.
  unfoldable pub buffer : List (Bytes × V) → Bytes → V → List (Bytes × V)
  buffer [] id v = (id, v) ∷ []
  buffer ((k, u) ∷ ops) id v =
      let rest = buffer ops id v in if equal k id then (k, v) ∷ ops else (k, u) ∷ rest

  -- The operations, without the keys.
  abbrev pub ops_of : List (Bytes × V) → List V
  ops_of [] = []
  ops_of ((k, v) ∷ ops) = v ∷ ops_of ops

-- Each key is there once.
abbrev pub IsMap : {V : Type 0} → List (Bytes × V) → Type 0
IsMap [] = Unit
IsMap ((k, v) ∷ ops) = (buffered ops k ≡ none) × IsMap ops

module _ {V : Type 0} where
  pub buffered-buffer :
      (ops : List (Bytes × V)) (id j : Bytes) (v : V)
      → buffered (buffer ops id v) j ≡ (if equal id j then some v else buffered ops j)
  unfolding buffered buffer
  buffered-buffer [] id j v = refl
  buffered-buffer ((k, u) ∷ ops) id j v =
      ground (arith, equal_iff k id, equal_iff k j, equal_iff id j, buffered-buffer ops id j v)

  pub buffer-IsMap :
      (ops : List (Bytes × V)) (id : Bytes) (v : V) → IsMap ops → IsMap (buffer ops id v)
  unfolding buffer
  buffer-IsMap [] id v m = (unfold buffered in refl, tt)
  buffer-IsMap ((k, u) ∷ ops) id v (unused, m) = elim (Bool-cases (equal k id)) [
    | inl same ↦ rw same (unused, m)
    | inr other ↦
        let e : equal id k ≡ false = equal_comm id k ∙ other in
        rw other (buffered-buffer ops id k v ∙ rw e unused, buffer-IsMap ops id v m)
  ]

  -- What holds of every operation.
  pub buffer-All {κ} :
      (P : Bytes × V → Type κ) (ops : List (Bytes × V)) (id : Bytes) (v : V)
      → P (id, v)
      → All P ops
      → All P (buffer ops id v)
  unfolding buffer
  buffer-All P [] id v p a = (p, tt)
  buffer-All P ((k, u) ∷ ops) id v p (q, a) = elim (Bool-cases (equal k id)) [
    | inl same ↦ rw same (subst (λ j. P (j, v)) (sym ((equal_iff k id).0 same)) p, a)
    | inr other ↦ rw other (q, buffer-All P ops id v p a)
  ]
