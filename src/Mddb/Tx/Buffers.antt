-- ===== src/Mddb/Tx/Buffers.antt =====
-- What the operations in the buffer of a transaction are, whatever was called on it.
use agent_task.Prelude.{
  ℕ, ◌≡◌, ◌⊎◌, inl, inr, refl, sym, Bool, true, false, not, ◌&&◌, Option, none, some, [],
  Bool-cases, All, subst,
}
use agent_task.Text.{Bytes, equal}
use agent_task.Mddb.Outcome.{
  Outcome, returned, failed, fail_if, invalid, already_exists, not_found, passed, checked,
  >>=-eq-returned,
}
use agent_task.Mddb.Paths.{validate_rel_path}
use agent_task.Mddb.Documents.{Config, Indexable, derive_and_validate, validate_document}
use agent_task.Mddb.Wal.{WalOp, wal_op_put, wal_op_delete, kind_create, kind_update, kind_delete}
use agent_task.Mddb.World.{World, Io, Ended, stopped, went, ◌>>=◌, ◌>>◌, lift}
use agent_task.Mddb.Tx.{
  Tx, buffer_put, other_path, validate_for_write, exists_in_index, file_exists, create_named,
  create, update_named, update, delete, buffer_delete, delete_buffered,
}
use agent_task.Mddb.Tx.Buffer.{buffered, buffer-IsMap, buffer-All, IsMap}

-- A put of a document of this id, which is not written out yet, or a delete.
abbrev pub IsIntent : {D F : Type 0} → Config D F → WalOp D → Type 0
IsIntent {D} cfg op =
    ((op.op ≡ wal_op_put)
      × ((op.kind ≡ kind_create) ⊎ (op.kind ≡ kind_update))
      × (op.content ≡ [])
      × ((doc : D) × (op.doc ≡ some doc) × (cfg.doc_id doc ≡ op.id)))
    ⊎ ((op.op ≡ wal_op_delete) × (op.kind ≡ kind_delete) × (op.content ≡ []))

-- An operation in the buffer goes by its id, to the path of this id.
pub record IsBuffered {D F : Type 0} (cfg : Config D F) (entry : Bytes × WalOp D) : Type 0 where
  pub keyed : entry.1.id ≡ entry.0
  pub named : equal entry.1.id [] ≡ false
  pub path : entry.1.path ≡ cfg.rel_path_from_id entry.1.id
  pub placed : equal entry.1.path [] ≡ false
  pub valid : validate_rel_path entry.1.path ≡ returned tt
  pub intent : IsIntent cfg entry.1

pub record IsOpen {D F : Type 0} (cfg : Config D F) (tx : Tx D) : Type 0 where
  pub once : IsMap tx.ops
  pub entries : All (IsBuffered cfg) tx.ops

-- Inversions of computations that return.
pub >>=-eq-went :
    {R A B : Type 0} (m : Io R A) (next : A → Io R B) (b : B) (w w' : World R)
    → (m >>= next) w ≡ went b w'
    → (a : A) × (v : World R) × (m w ≡ went a v) × (next a v ≡ went b w')
>>=-eq-went {R = R} {A = A} {B = B} m next b w w' = inside (m w)
  where
    inside :
        (r : Ended R A)
        → elim r [ stopped e v ↦ stopped e v | went a v ↦ next a v ] ≡ went b w'
        → (a : A) × (v : World R) × (r ≡ went a v) × (next a v ≡ went b w')
    inside (stopped e v) h = cc h
    inside (went a v) h = (a, v, refl, h)

pub lift-eq-went :
    {R A : Type 0} (o : Outcome A) (a : A) (w v : World R)
    → lift o w ≡ went a v
    → (o ≡ returned a) × (w ≡ v)
lift-eq-went (failed e) a w v h = cc h
lift-eq-went (returned b) a w v h = (cc h, cc h)

pub seq-eq-went :
    {R B : Type 0} (o : Outcome (Unit {0})) (rest : Io R B) (b : B) (w w' : World R)
    → (lift o >> rest) w ≡ went b w'
    → (o ≡ returned tt) × (rest w ≡ went b w')
seq-eq-went (failed e) rest b w w' h = cc h
seq-eq-went (returned u) rest b w w' h = (refl, h)

module _ {D F : Type 0} (cfg : Config D F) where
  -- The id and the path of a document that may be written.
  record IsNamed (doc : D) (named : Bytes × Bytes) : Type 0 where
    pub id : named.0 ≡ cfg.doc_id doc
    pub given : equal named.0 [] ≡ false
    pub path : named.1 ≡ cfg.rel_path_from_id named.0
    pub placed : equal named.1 [] ≡ false
    pub valid : validate_rel_path named.1 ≡ returned tt

  derive_and_validate-returned :
      (id fs_path : Bytes) (derived : Bytes × Bytes)
      → derive_and_validate cfg id fs_path ≡ returned derived
      → (derived.0 ≡ cfg.rel_path_from_id id)
        × (equal derived.0 [] ≡ false)
        × (validate_rel_path derived.0 ≡ returned tt)
  unfolding derive_and_validate
  derive_and_validate-returned id fs_path derived h =
      let path = cfg.rel_path_from_id id in
      let (placed, h1) = passed (equal path []) _ _ derived h in
      let (valid, h2) = checked (validate_rel_path path) _ derived h1 in
      let (_, h3) = passed (not (equal fs_path []) && not (equal path fs_path)) _ _ derived h2 in
      let (_, h4) = passed (equal (cfg.short_id_from_id id) []) _ _ derived h3 in
      let e : path ≡ derived.0 = cc h4 in
      (
        sym e,
        subst (λ p. equal p [] ≡ false) e placed,
        subst (λ p. validate_rel_path p ≡ returned tt) e valid,
      )

  validate_document-IsNamed :
      (doc : D) (named : Bytes × Bytes)
      → validate_document cfg doc ≡ returned named
      → IsNamed doc named
  unfolding validate_document
  validate_document-IsNamed doc named h =
      let id = cfg.doc_id doc in
      let (given, h1) = passed (equal id []) _ _ named h in
      let (_, h2) = passed (equal (cfg.doc_title doc) []) _ _ named h1 in
      let (derived, e, h3) = >>=-eq-returned (derive_and_validate cfg id []) _ h2 in
      let (path, placed, valid) = derive_and_validate-returned id [] derived e in
      let is_it : (id, derived.0) ≡ named = cc h3 in
      subst (IsNamed doc) is_it
        (record { id = refl; given = given; path = path; placed = placed; valid = valid })

  buffer_put-IsOpen :
      (doc : D) (named : Bytes × Bytes) (kind : ℕ) (tx : Tx D)
      → IsNamed doc named
      → (kind ≡ kind_create) ⊎ (kind ≡ kind_update)
      → IsOpen cfg tx
      → IsOpen cfg (buffer_put named.0 named.1 doc kind tx)
  unfolding buffer_put
  buffer_put-IsOpen doc named kind tx n k o = record {
    once = buffer-IsMap tx.ops named.0 _ o.once;
    entries =
        buffer-All (IsBuffered cfg) tx.ops named.0 _
          (record {
            keyed = refl;
            named = n.given;
            path = n.path;
            placed = n.placed;
            valid = n.valid;
            intent = inl (refl, k, refl, (doc, refl, sym n.id));
          })
          o.entries;
  }

  validate_for_write-IsNamed :
      (tx : Tx D) (doc : D) (named : Bytes × Bytes) (w w' : World (Indexable F))
      → validate_for_write cfg tx doc w ≡ went named w'
      → IsNamed doc named
  unfolding validate_for_write
  validate_for_write-IsNamed tx doc named w w' h =
      let (_, h1) = seq-eq-went (fail_if tx.closed invalid) _ named w w' h in
      let (n, v, e, h2) = >>=-eq-went (lift (validate_document cfg doc)) _ named w w' h1 in
      let (_, h3) =
        seq-eq-went (fail_if (other_path (buffered tx.ops n.0) n.1) invalid) _ named v w' h2 in
      let is_it : n ≡ named = cc h3 in
      subst (IsNamed doc) is_it
        (validate_document-IsNamed doc n (lift-eq-went (validate_document cfg doc) n w v e).0)

  pub create-IsOpen :
      (tx tx' : Tx D) (doc : D) (w w' : World (Indexable F))
      → create cfg tx doc w ≡ went tx' w'
      → IsOpen cfg tx
      → IsOpen cfg tx'
  unfolding create create_named
  create-IsOpen tx tx' doc w w' h o =
      let (named, v, e, h1) = >>=-eq-went (validate_for_write cfg tx doc) _ tx' w w' h in
      let (indexed, v1, _, h2) = >>=-eq-went (exists_in_index cfg named.0) _ tx' v w' h1 in
      let (_, h3) = seq-eq-went (fail_if indexed already_exists) _ tx' v1 w' h2 in
      let (exists, v2, _, h4) = >>=-eq-went (file_exists cfg named.1) _ tx' v1 w' h3 in
      let (_, h5) = seq-eq-went (fail_if exists already_exists) _ tx' v2 w' h4 in
      let is_it : buffer_put named.0 named.1 doc kind_create tx ≡ tx' = cc h5 in
      subst (IsOpen cfg) is_it (
        buffer_put-IsOpen doc named kind_create tx (validate_for_write-IsNamed tx doc named w v e)
          (inl refl) o)

  pub update-IsOpen :
      (tx tx' : Tx D) (doc : D) (w w' : World (Indexable F))
      → update cfg tx doc w ≡ went tx' w'
      → IsOpen cfg tx
      → IsOpen cfg tx'
  unfolding update update_named
  update-IsOpen tx tx' doc w w' h o =
      let (named, v, e, h1) = >>=-eq-went (validate_for_write cfg tx doc) _ tx' w w' h in
      let (indexed, v1, _, h2) = >>=-eq-went (exists_in_index cfg named.0) _ tx' v w' h1 in
      let (_, h3) = seq-eq-went (fail_if (not indexed) not_found) _ tx' v1 w' h2 in
      let (exists, v2, _, h4) = >>=-eq-went (file_exists cfg named.1) _ tx' v1 w' h3 in
      let (_, h5) = seq-eq-went (fail_if (not exists) not_found) _ tx' v2 w' h4 in
      let is_it : buffer_put named.0 named.1 doc kind_update tx ≡ tx' = cc h5 in
      subst (IsOpen cfg) is_it (
        buffer_put-IsOpen doc named kind_update tx (validate_for_write-IsNamed tx doc named w v e)
          (inr refl) o)

  -- The entry that a delete makes.
  buffer_delete-IsOpen :
      (tx : Tx D) (id : Bytes)
      → equal id [] ≡ false
      → equal (cfg.rel_path_from_id id) [] ≡ false
      → validate_rel_path (cfg.rel_path_from_id id) ≡ returned tt
      → IsOpen cfg tx
      → IsOpen cfg (buffer_delete cfg tx id (cfg.rel_path_from_id id))
  buffer_delete-IsOpen tx id given placed valid o = record {
    once = buffer-IsMap tx.ops id _ o.once;
    entries =
        buffer-All (IsBuffered cfg) tx.ops id _
          (record {
            keyed = refl;
            named = given;
            path = refl;
            placed = placed;
            valid = valid;
            intent = inr (refl, refl, refl);
          })
          o.entries;
  }

  delete_buffered-cases :
      (tx tx' : Tx D) (id path : Bytes) (o : Option (WalOp D)) (w w' : World (Indexable F))
      → delete_buffered cfg tx id path o w ≡ went tx' w'
      → (tx ≡ tx') ⊎ (buffer_delete cfg tx id path ≡ tx')
  unfolding delete_buffered file_exists
  delete_buffered-cases tx tx' id path none w w' h =
      let (exists, v, _, h1) = >>=-eq-went (file_exists cfg path) _ tx' w w' h in
      let (_, h2) = seq-eq-went (fail_if (not exists) not_found) _ tx' v w' h1 in inr (cc h2)
  delete_buffered-cases tx tx' id path (some existing) w w' h =
      elim (Bool-cases (equal existing.op wal_op_put)) [
        | inl is_put ↦
            let (_, h1) =
              seq-eq-went (fail_if (other_path (some existing) path) invalid) _ tx' w w'
                (rw is_put at h) in
            inr (cc h1)
        | inr not_put ↦ elim (Bool-cases (equal existing.op wal_op_delete)) [
          | inl is_delete ↦ inl (cc (rw (not_put, is_delete) at h))
          | inr other ↦ inr (cc (rw (not_put, other) at h))
        ]
      ]

  pub delete-IsOpen :
      (tx tx' : Tx D) (id : Bytes) (w w' : World (Indexable F))
      → delete cfg tx id w ≡ went tx' w'
      → IsOpen cfg tx
      → IsOpen cfg tx'
  unfolding delete
  delete-IsOpen tx tx' id w w' h o =
      let path = cfg.rel_path_from_id id in
      let (_, h1) = seq-eq-went (fail_if tx.closed invalid) _ tx' w w' h in
      let (given, h2) = seq-eq-went (fail_if (equal id []) invalid) _ tx' w w' h1 in
      let (placed, h3) = seq-eq-went (fail_if (equal path []) invalid) _ tx' w w' h2 in
      let (valid, h4) = seq-eq-went (validate_rel_path path) _ tx' w w' h3 in
      elim (delete_buffered-cases tx tx' id path (buffered tx.ops id) w w' h4) [
        | inl same ↦ subst (IsOpen cfg) same o
        | inr added ↦ subst (IsOpen cfg) added (
            buffer_delete-IsOpen tx id (fail_if-returned (equal id []) given)
              (fail_if-returned (equal path []) placed) valid o)
      ]
    where
      fail_if-returned : (b : Bool) → fail_if b invalid ≡ returned tt → b ≡ false
      fail_if-returned true h = cc h
      fail_if-returned false h = refl
