-- ===== src/Mddb/Tx.antt =====
-- pkg/mddb/tx.go: a transaction, which buffers operations by id until it is committed.
pub mod Buffer
pub mod Buffers
pub mod Calls
use agent_task.Prelude.{
  ℕ, Bool, true, false, not, ◌&&◌, Option, none, some, List, [], ◌∷◌, if◌then◌else◌,
}
use agent_task.Text.{Bytes, equal}
use agent_task.Mddb.Outcome.{Outcome, returned, failed, fail_if, invalid, already_exists, not_found}
use agent_task.Mddb.Paths.{validate_rel_path}
use agent_task.Mddb.Documents.{Config, Indexable, validate_document}
use agent_task.Mddb.Wal.{WalOp, wal_op_put, wal_op_delete, kind_create, kind_update, kind_delete}
use agent_task.Mddb.World.{Disk, Io, pure, ◌>>=◌, ◌>>◌, lift, call, quiet}
use agent_task.Mddb.Materialize.{materialize_ops}
use agent_task.Mddb.Commit.{commit_ops, recover_wal_locked}
use agent_task.Mddb.Tx.Buffer.{buffered, buffer, ops_of}

pub record Tx (D : Type 0) : Type 0 where
  pub ops : List (Bytes × WalOp D)
  pub closed : Bool

-- A query or a `Stat` that finds something or nothing.
abbrev look : {R : Type 0} → (Disk R → Bool) → Io R Bool
look test = quiet >> λ w. pure (test w.disk) w

abbrev present {ℓ} : {V : Type ℓ} → Option V → Bool
present none = false
present (some v) = true

-- `bufferPut`.
unfoldable pub buffer_put : {D : Type 0} → Bytes → Bytes → D → ℕ → Tx D → Tx D
buffer_put id path doc kind tx = record tx {
  ops =
      buffer tx.ops id (record {
        op = wal_op_put;
        kind = kind;
        id = id;
        path = path;
        content = [];
        doc = some doc;
      });
}

-- Another path is buffered for the id.
abbrev pub other_path : {D : Type 0} → Option (WalOp D) → Bytes → Bool
other_path none path = false
other_path (some existing) path = not (equal existing.path []) && not (equal existing.path path)

module _ {D F : Type 0} (cfg : Config D F) where
  -- `Begin` replays the log under the lock.
  unfoldable pub begin : Io (Indexable F) (Tx D)
  begin = recover_wal_locked cfg >> pure (record { ops = []; closed = false })

  -- `validateForWrite`: the id and the path.
  unfoldable pub validate_for_write : Tx D → D → Io (Indexable F) (Bytes × Bytes)
  validate_for_write tx doc = do
    lift (fail_if tx.closed invalid)
    named ← lift (validate_document cfg doc)
    lift (fail_if (other_path (buffered tx.ops named.0) named.1) invalid)
    pure named

  unfoldable pub exists_in_index : Bytes → Io (Indexable F) Bool
  unfolding call
  exists_in_index id = look (λ d. present (d.rows id))

  -- All that stands in a file's place is a regular file.
  unfoldable pub file_exists : Bytes → Io (Indexable F) Bool
  unfolding call
  file_exists path = look (λ d. present (d.files path))

  -- The rest of `Tx.Create` for a valid document.
  unfoldable pub create_named : Tx D → D → Bytes × Bytes → Io (Indexable F) (Tx D)
  unfolding exists_in_index file_exists buffer_put
  create_named tx doc named = do
    indexed ← exists_in_index named.0
    lift (fail_if indexed already_exists)
    exists ← file_exists named.1
    lift (fail_if exists already_exists)
    pure (buffer_put named.0 named.1 doc kind_create tx)

  -- `Tx.Create`.
  unfoldable pub create : Tx D → D → Io (Indexable F) (Tx D)
  unfolding validate_for_write create_named
  create tx doc = validate_for_write tx doc >>= create_named tx doc

  -- The rest of `Tx.Update` for a valid document.
  unfoldable pub update_named : Tx D → D → Bytes × Bytes → Io (Indexable F) (Tx D)
  unfolding exists_in_index file_exists buffer_put
  update_named tx doc named = do
    indexed ← exists_in_index named.0
    lift (fail_if (not indexed) not_found)
    exists ← file_exists named.1
    lift (fail_if (not exists) not_found)
    pure (buffer_put named.0 named.1 doc kind_update tx)

  -- `Tx.Update`.
  unfoldable pub update : Tx D → D → Io (Indexable F) (Tx D)
  unfolding validate_for_write update_named
  update tx doc = validate_for_write tx doc >>= update_named tx doc

  abbrev pub delete_op : Bytes → Bytes → WalOp D
  delete_op id path = record {
    op = wal_op_delete;
    kind = kind_delete;
    id = id;
    path = path;
    content = [];
    doc = none;
  }

  abbrev pub buffer_delete : Tx D → Bytes → Bytes → Tx D
  buffer_delete tx id path = record tx { ops = buffer tx.ops id (delete_op id path) }

  -- The rest of `Tx.Delete`, by what is buffered for the id.
  unfoldable pub delete_buffered : Tx D → Bytes → Bytes → Option (WalOp D) → Io (Indexable F) (Tx D)
  unfolding call
  delete_buffered tx id path none = do
    exists ← look (λ d. present (d.files path))
    lift (fail_if (not exists) not_found)
    pure (buffer_delete tx id path)
  delete_buffered tx id path (some existing) =
      if equal existing.op wal_op_put
      then lift (fail_if (other_path (some existing) path) invalid)
        >> pure (buffer_delete tx id path)
      else if equal existing.op wal_op_delete
      then pure tx
      else pure (buffer_delete tx id path)

  -- `Tx.Delete`.
  unfoldable pub delete : Tx D → Bytes → Io (Indexable F) (Tx D)
  unfolding delete_buffered
  delete tx id =
      let path = cfg.rel_path_from_id id in
      do
        lift (fail_if tx.closed invalid)
        lift (fail_if (equal id []) invalid)
        lift (fail_if (equal path []) invalid)
        lift (validate_rel_path path)
        delete_buffered tx id path (buffered tx.ops id)

  abbrev commit_buffered : List (WalOp D) → Io (Indexable F) (Unit {0})
  commit_buffered [] = pure tt
  commit_buffered (op ∷ ops) = lift (materialize_ops cfg (op ∷ ops)) >>= commit_ops cfg

  -- `Tx.Commit`, which closes the transaction whatever it returns. `arrange` is the order in which the
  -- source goes through the map of the operations.
  unfoldable pub commit : (List (WalOp D) → List (WalOp D)) → Tx D → Io (Indexable F) (Unit {0})
  unfolding materialize_ops commit_ops
  commit arrange tx = lift (fail_if tx.closed invalid) >> commit_buffered (arrange (ops_of tx.ops))
