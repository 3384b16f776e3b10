-- ===== src/Mddb/Recovery/Later.antt =====
-- What a transaction sees of one that was committed before it.
use agent_task.Prelude.{
  ◌≡◌, refl, ap, ◌∙◌, true, false, none, some, List, [], ◌∷◌, Option-cases, inl, inr,
}
use agent_task.Text.{Bytes, equal}
use agent_task.Mddb.Outcome.{returned, fail_if, invalid, already_exists, not_found}
use agent_task.Mddb.Documents.{Config, Indexable, validate_document}
use agent_task.Mddb.Wal.{WalOp, wal_op_put}
use agent_task.Mddb.World.{Disk, World, Io, ◌>>=◌, stopped, went, lift, pure, ◌>>◌}
use agent_task.Mddb.Tx.{
  Tx, other_path, validate_for_write, create_named, create, update_named, update,
}
use agent_task.Mddb.Tx.Buffer.{buffered, IsMap}
use agent_task.Mddb.Writes.{write_all}
use agent_task.Mddb.Orders.{Reordered, write_all_once}
use agent_task.Mddb.Effects.{file_write, file_writes}
use agent_task.Mddb.Commit.{commit_ops}
use agent_task.Mddb.Recovery.{IsCommittable}
use agent_task.Mddb.Recovery.Crashes.{restart}
use agent_task.Mddb.Recovery.Order.{returned-IsNew, file_writes-Reordered}

bind_went :
    {R A B : Type 0} (m : Io R A) (next : A → Io R B) (a : A) (w v : World R)
    → m w ≡ went a v
    → (m >>= next) w ≡ next a v
bind_went m next a w v e = ap (λ r. elim r [ stopped x u ↦ stopped x u | went b u ↦ next b u ]) e

module _ {D F : Type 0} (cfg : Config D F) where
  -- A transaction may write the document, to this path.
  pub record MayWrite (tx : Tx D) (doc : D) (id path : Bytes) : Type 0 where
    pub is_open : tx.closed ≡ false
    pub valid : validate_document cfg doc ≡ returned (id, path)
    pub same_path : other_path (buffered tx.ops id) path ≡ false

  validates :
      (tx : Tx D) (doc : D) (id path : Bytes) (d : Disk (Indexable F))
      → MayWrite tx doc id path
      → validate_for_write cfg tx doc (restart [] d) ≡ went (id, path) (restart [] d)
  unfolding validate_for_write
  validates tx doc id path d m =
      rw (m.is_open, m.valid)
        (ap (λ b. (lift {R = Indexable F} (fail_if b invalid) >> pure (id, path)) (restart [] d))
          m.same_path)

  create_named_there :
      (tx : Tx D) (doc : D) (id path content : Bytes) (d : Disk (Indexable F))
      → d.files path ≡ some content
      → create_named cfg tx doc (id, path) (restart [] d) ≡ stopped already_exists (restart [] d)
  unfolding create_named
  create_named_there tx doc id path content d e = elim (Option-cases (d.rows id)) [
    | inl absent ↦ rw (absent, e) refl
    | inr (r, there) ↦ rw there refl
  ]

  update_named_gone :
      (tx : Tx D) (doc : D) (id path : Bytes) (d : Disk (Indexable F))
      → d.files path ≡ none
      → update_named cfg tx doc (id, path) (restart [] d) ≡ stopped not_found (restart [] d)
  unfolding update_named
  update_named_gone tx doc id path d e = elim (Option-cases (d.rows id)) [
    | inl absent ↦ rw absent refl
    | inr (r, there) ↦ rw (there, e) refl
  ]

  create_there :
      (tx : Tx D) (doc : D) (id path content : Bytes) (d : Disk (Indexable F))
      → MayWrite tx doc id path
      → d.files path ≡ some content
      → create cfg tx doc (restart [] d) ≡ stopped already_exists (restart [] d)
  unfolding create
  create_there tx doc id path content d m e =
      bind_went (validate_for_write cfg tx doc) (create_named cfg tx doc) (id, path) (restart [] d)
        (restart [] d) (validates tx doc id path d m)
      ∙ create_named_there tx doc id path content d e

  update_gone :
      (tx : Tx D) (doc : D) (id path : Bytes) (d : Disk (Indexable F))
      → MayWrite tx doc id path
      → d.files path ≡ none
      → update cfg tx doc (restart [] d) ≡ stopped not_found (restart [] d)
  unfolding update
  update_gone tx doc id path d m e =
      bind_went (validate_for_write cfg tx doc) (update_named cfg tx doc) (id, path) (restart [] d)
        (restart [] d) (validates tx doc id path d m)
      ∙ update_named_gone tx doc id path d e

  module _ (row : Bytes → Bytes → Bytes → Indexable F) (d : Disk (Indexable F)) (op : WalOp D)
      (ops others : List (WalOp D)) (content : Bytes) where
    file_of :
        IsMap (file_writes ops)
        → Reordered ops (op ∷ others)
        → write_all (file_writes ops) d.files op.path ≡ (file_write op).1
    file_of once r =
        write_all_once (file_writes ops) (file_writes others) d.files op.path (file_write op).1
          (file_writes-Reordered r) once

    -- A commit that puts a document, and writes no path twice, on an empty log and on files that are all
    -- safe, returns if no call of the system fails. A transaction behind it is refused to create a
    -- document at this path, if it is open, the document is valid, and the transaction has not buffered
    -- its id with another path. JSON is read as it is written and has no zero bytes, the operations are
    -- valid texts that the log takes and whose paths are accepted, their documents can be indexed, the
    -- callbacks return, and the log is shorter than 2 to the 56.
    pub create-commit :
        (tx : Tx D) (doc : D) (id : Bytes)
        → d.wal.text ≡ []
        → ((p : Bytes) → d.saved_files p ≡ d.files p)
        → IsCommittable cfg row ops d.files content
        → IsMap (file_writes ops)
        → Reordered ops (op ∷ others)
        → equal op.op wal_op_put ≡ true
        → MayWrite tx doc id op.path
        → (end : World (Indexable F)) × (commit_ops cfg ops (restart [] d) ≡ went tt end)
          × (create cfg tx doc (restart [] end.disk) ≡ stopped already_exists (restart [] end.disk))
    create-commit tx doc id empty settled c once r is_put m =
        let (end, e, n) = returned-IsNew cfg row d ops content empty settled c in
        let there : end.disk.files op.path ≡ some op.content =
          n.new_files op.path ∙ file_of once r ∙ rw is_put refl in
        (end, e, create_there tx doc id op.path op.content end.disk m there)

    -- A commit that deletes a document, and writes no path twice, on an empty log and on files that are all
    -- safe, returns if no call of the system fails. A transaction behind it is refused to update a
    -- document at this path, if it is open, the document is valid, and the transaction has not buffered
    -- its id with another path. JSON is read as it is written and has no zero bytes, the operations are
    -- valid texts that the log takes and whose paths are accepted, their documents can be indexed, the
    -- callbacks return, and the log is shorter than 2 to the 56.
    pub update-commit :
        (tx : Tx D) (doc : D) (id : Bytes)
        → d.wal.text ≡ []
        → ((p : Bytes) → d.saved_files p ≡ d.files p)
        → IsCommittable cfg row ops d.files content
        → IsMap (file_writes ops)
        → Reordered ops (op ∷ others)
        → equal op.op wal_op_put ≡ false
        → MayWrite tx doc id op.path
        → (end : World (Indexable F)) × (commit_ops cfg ops (restart [] d) ≡ went tt end)
          × (update cfg tx doc (restart [] end.disk) ≡ stopped not_found (restart [] end.disk))
    update-commit tx doc id empty settled c once r not_put m =
        let (end, e, n) = returned-IsNew cfg row d ops content empty settled c in
        let gone : end.disk.files op.path ≡ none =
          n.new_files op.path ∙ file_of once r ∙ rw not_put refl in
        (end, e, update_gone tx doc id op.path end.disk m gone)
