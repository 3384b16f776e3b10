-- ===== src/Mddb/Apply.antt =====
-- pkg/mddb/wal.go: applying the operations of a log to the files and to the index.
use agent_task.Prelude.{ℕ, Option, none, some, List, [], ◌∷◌, ◌++◌, if◌then◌else◌}
use agent_task.Text.{Bytes, codes, equal, split, join}
use agent_task.Mddb.Outcome.{failed, fail_if, invalid}
use agent_task.Mddb.Paths.{validate_rel_path}
use agent_task.Mddb.Documents.{Config, Indexable, parse_indexable}
use agent_task.Mddb.Wal.{WalOp, wal_op_put, wal_op_delete, kind_delete}
use agent_task.Mddb.World.{
  Io, pure, ◌>>=◌, ◌>>◌, lift, call, step, quiet, write_file, remove_file, sync_dir, stat, update,
}

abbrev drop_last : List Bytes → List Bytes
drop_last [] = []
drop_last (part ∷ []) = []
drop_last (part ∷ next ∷ parts) = part ∷ drop_last (next ∷ parts)

-- `filepath.Dir` of a clean path; the data directory itself is empty.
unfoldable pub dir_of : Bytes → Bytes
dir_of path = join (drop_last (split path b'/')) (codes "/")

module _ {D F : Type 0} where
  -- What `applyOpsToFS` does for one operation. Making the directory is a call of its own.
  unfoldable pub change_file : WalOp D → Io (Indexable F) (Unit {0})
  unfolding call
  change_file op =
      if equal op.op wal_op_put
      then lift (fail_if (equal op.content []) invalid) >> (quiet >> write_file op.path op.content)
      else if equal op.op wal_op_delete
      then remove_file op.path
      else lift (failed invalid)

  -- A round of its loop; the call before the change is the test whether the context is cancelled.
  unfoldable pub apply_op : WalOp D → Io (Indexable F) (Unit {0})
  unfolding call change_file
  apply_op op = lift (validate_rel_path op.path) >> (quiet >> change_file op)

  unfoldable pub apply_each : List (WalOp D) → Io (Indexable F) (Unit {0})
  unfolding apply_op
  apply_each [] = pure tt
  apply_each (op ∷ ops) = apply_op op >> apply_each ops

  -- The loop over the directories to sync, those of the paths of the operations. The source goes through
  -- each of them once, in any order; those that it made are left out.
  unfoldable pub sync_dirs : List (WalOp D) → Io (Indexable F) (Unit {0})
  unfolding call
  sync_dirs [] = pure tt
  sync_dirs (op ∷ ops) = sync_dir (λ p. equal (dir_of op.path) (dir_of p)) >> sync_dirs ops

  -- `applyOpsToFS`.
  unfoldable pub apply_ops_to_fs : List (WalOp D) → Io (Indexable F) (Unit {0})
  unfolding apply_each sync_dirs
  apply_ops_to_fs ops = apply_each ops >> sync_dirs ops

abbrev pub Rows : Type 0 → Type 0
Rows F = Bytes → Option (Indexable F)

-- What the loop over the operations leaves: the rows, and the documents to put with their kinds.
pub record Staged (F : Type 0) : Type 0 where
  pub rows : Rows F
  pub puts : List (ℕ × Indexable F)

module _ {D F : Type 0} (cfg : Config D F) where
  -- What `updateSqliteIndexFromOps` does for one operation.
  unfoldable pub stage_change : WalOp D → Staged F → Io (Indexable F) (Staged F)
  unfolding call stat
  stage_change op s =
      if equal op.op wal_op_delete
      then quiet
        >> (lift (cfg.after kind_delete op.id)
            >> pure (record s { rows = update s.rows op.id none }))
      else if equal op.op wal_op_put
      then lift (fail_if (equal op.content []) invalid)
        >> (stat op.path >>= λ size.
            lift (parse_indexable cfg op.path op.content size op.id) >>= λ row.
            pure (record s { puts = s.puts ++ (op.kind, row) ∷ [] }))
      else lift (failed invalid)

  unfoldable pub stage_op : WalOp D → Staged F → Io (Indexable F) (Staged F)
  unfolding call stage_change
  stage_op op s = lift (validate_rel_path op.path) >> (quiet >> stage_change op s)

  unfoldable pub stage : List (WalOp D) → Staged F → Io (Indexable F) (Staged F)
  unfolding stage_op
  stage [] s = pure s
  stage (op ∷ ops) s = stage_op op s >>= stage ops

  -- The loop over the rows to insert.
  unfoldable pub insert_rows : List (ℕ × Indexable F) → Rows F → Io (Indexable F) (Rows F)
  unfolding call
  insert_rows [] rows = pure rows
  insert_rows ((kind, row) ∷ puts) rows =
      quiet >> (lift (cfg.after kind row.id) >> insert_rows puts (update rows row.id (some row)))

  -- `updateSqliteIndexFromOps`: nothing of it is seen before the transaction is committed.
  unfoldable pub update_sqlite_index_from_ops : List (WalOp D) → Io (Indexable F) (Unit {0})
  unfolding stage insert_rows
  update_sqlite_index_from_ops ops = quiet >> λ w.
      (stage ops (record { rows = w.disk.rows; puts = [] }) >>= λ s.
      insert_rows s.puts s.rows >>= λ rows. call (step (λ d. record d { rows = rows })))
        w
