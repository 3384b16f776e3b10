-- ===== src/Mddb/Orders.antt =====
-- Lists in another order, and writes in another order to a map.
use agent_task.Prelude.{
  ◌≡◌, refl, sym, ap, ◌∙◌, false, Option, none, some, List, [], ◌∷◌, ◌++◌, if◌then◌else◌,
  Bool-cases, inl, inr, All, arith,
}
use agent_task.Text.{Bytes, equal, equal_iff, equal_comm, equal_refl}
use agent_task.Mddb.World.{update}
use agent_task.Mddb.Writes.{write_all, write_all-Heals}
use agent_task.Mddb.Tx.Buffer.{buffered, IsMap}

-- The same items in another order.
pub data Reordered {A : Type 0} : List A → List A → Type 0 where
  same : (xs : List A) → Reordered xs xs
  behind : (x : A) {xs ys : List A} → Reordered xs ys → Reordered (x ∷ xs) (x ∷ ys)
  swap : (x y : A) (xs : List A) → Reordered (x ∷ y ∷ xs) (y ∷ x ∷ xs)
  via : {xs ys zs : List A} → Reordered xs ys → Reordered ys zs → Reordered xs zs

pub Reordered-All {κ} :
    {A : Type 0} (P : A → Type κ) (xs ys : List A) → Reordered xs ys → All P xs → All P ys
Reordered-All P _ _ (same xs) a = a
Reordered-All P _ _ (behind x {xs} {ys} r) (p, a) = (p, Reordered-All P xs ys r a)
Reordered-All P _ _ (swap x y xs) (p, (q, a)) = (q, (p, a))
Reordered-All P _ _ (via {xs} {ys} {zs} r s) a = Reordered-All P ys zs s (Reordered-All P xs ys r a)

Reordered-prefix :
    {A : Type 0} {xs ys : List A} (us : List A) → Reordered xs ys → Reordered (us ++ xs) (us ++ ys)
Reordered-prefix [] r = r
Reordered-prefix (u ∷ us) r = behind u (Reordered-prefix us r)

Reordered-suffix :
    {A : Type 0} (xs : List A) {us vs : List A} → Reordered us vs → Reordered (us ++ xs) (vs ++ xs)
Reordered-suffix xs (same us) = same (us ++ xs)
Reordered-suffix xs (behind x r) = behind x (Reordered-suffix xs r)
Reordered-suffix xs (swap x y us) = swap x y (us ++ xs)
Reordered-suffix xs (via r s) = via (Reordered-suffix xs r) (Reordered-suffix xs s)

pub Reordered-append :
    {A : Type 0} {us vs xs ys : List A}
    → Reordered us vs
    → Reordered xs ys
    → Reordered (us ++ xs) (vs ++ ys)
Reordered-append {us = us} {ys = ys} s r = via (Reordered-prefix us r) (Reordered-suffix ys s)

module _ {V : Type 0} where
  buffered-swap :
      (k l : Bytes) (u v : V) (ops : List (Bytes × V)) (j : Bytes)
      → equal l k ≡ false
      → buffered ((k, u) ∷ (l, v) ∷ ops) j ≡ buffered ((l, v) ∷ (k, u) ∷ ops) j
  unfolding buffered
  buffered-swap k l u v ops j other = ground (arith, equal_iff k j, equal_iff l j, equal_iff l k)

  first_absent :
      (l k : Bytes) (v : V) (ops : List (Bytes × V))
      → buffered ((l, v) ∷ ops) k ≡ none
      → (equal l k ≡ false) × (buffered ops k ≡ none)
  unfolding buffered
  first_absent l k v ops h = ground arith

  pub buffered-Reordered :
      (xs ys : List (Bytes × V)) (j : Bytes)
      → Reordered xs ys
      → IsMap xs
      → (buffered xs j ≡ buffered ys j) × IsMap ys
  unfolding buffered
  buffered-Reordered _ _ j (same xs) m = (refl, m)
  buffered-Reordered _ _ j (behind (k, v) {xs} {ys} r) (h, m) =
      let (e, _) = buffered-Reordered xs ys k r m in
      let (e', m') = buffered-Reordered xs ys j r m in
      (ap (λ o. if equal k j then some v else o) e', (sym e ∙ h, m'))
  buffered-Reordered _ _ j (swap (k, u) (l, v) ops) (h, (g, m)) =
      let (other, absent) = first_absent l k v ops h in
      (buffered-swap k l u v ops j other, (rw (equal_comm k l ∙ other) g, (absent, m)))
  buffered-Reordered _ _ j (via {xs} {ys} {zs} r s) m =
      let (e, m') = buffered-Reordered xs ys j r m in
      let (e', m'') = buffered-Reordered ys zs j s m' in (e ∙ e', m'')

module _ {V : Type 0} where
  update_swap :
      (f : Bytes → Option V) (k l : Bytes) (u v : Option V) (i : Bytes)
      → equal l k ≡ false
      → update (update f k u) l v i ≡ update (update f l v) k u i
  update_swap f k l u v i other = ground (arith, equal_iff k i, equal_iff l i, equal_iff l k)

  -- Writes to different keys make the same map in any order.
  pub write_all-Reordered :
      (vs ws : List (Bytes × Option V)) (f : Bytes → Option V)
      → Reordered vs ws
      → IsMap vs
      → (j : Bytes) → write_all vs f j ≡ write_all ws f j
  unfolding write_all
  write_all-Reordered _ _ f (same ws) m j = refl
  write_all-Reordered _ _ f (behind (k, v) {xs = vs} {ys = ws} r) (h, m) j =
      write_all-Reordered vs ws (update f k v) r m j
  write_all-Reordered _ _ f (swap (k, u) (l, v) ws) (h, (g, m)) j =
      let (other, _) = first_absent l k v ws h in
      write_all-Heals ws (update (update f l v) k u) (update (update f k u) l v)
        (λ i _. update_swap f k l u v i other) j
  write_all-Reordered _ _ f (via {xs = vs} {ys = ws} {zs = zs} r s) m j =
      write_all-Reordered vs ws f r m j
      ∙ write_all-Reordered ws zs f s (buffered-Reordered vs ws j r m).1 j

  -- A key that is not written keeps its value.
  pub write_all_absent :
      (ws : List (Bytes × Option V)) (f : Bytes → Option V) (j : Bytes)
      → buffered ws j ≡ none
      → write_all ws f j ≡ f j
  unfolding write_all buffered
  write_all_absent [] f j h = refl
  write_all_absent ((k, v) ∷ ws) f j h = elim (Bool-cases (equal k j)) [
    | inl hit ↦ cc (rw hit at h)
    | inr other ↦ write_all_absent ws (update f k v) j (rw other at h) ∙ rw other refl
  ]

  -- A key that is written once has that value.
  pub write_all_once :
      (ws others : List (Bytes × Option V)) (f : Bytes → Option V) (k : Bytes) (v : Option V)
      → Reordered ws ((k, v) ∷ others)
      → IsMap ws
      → write_all ws f k ≡ v
  unfolding write_all
  write_all_once ws others f k v r m =
      let (absent, _) = (buffered-Reordered ws ((k, v) ∷ others) k r m).1 in
      write_all-Reordered ws ((k, v) ∷ others) f r m k
      ∙ write_all_absent others (update f k v) k absent
      ∙ rw (equal_refl k) refl
