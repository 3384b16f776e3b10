-- ===== src/Mddb/Commit.antt =====
-- pkg/mddb: `recoverWalLocked` of wal.go, and `writeWAL` and `Commit` of tx.go.
use agent_task.Prelude.{List}
use agent_task.Text.{Bytes}
use agent_task.Mddb.Outcome.{replay, incomplete}
use agent_task.Mddb.Documents.{Config, Indexable}
use agent_task.Mddb.Wal.{
  WalOp, WalState, empty_wal, uncommitted, committed, encode_wal_content, decode_wal_ops,
  read_wal_state,
}
use agent_task.Mddb.World.{
  Io, pure, ◌>>=◌, ◌>>◌, lift, wrap, on_error, ignore, call, quiet, truncate_wal, write_at_start,
  sync_wal,
}
use agent_task.Mddb.Apply.{apply_ops_to_fs, update_sqlite_index_from_ops}

module _ {D F : Type 0} (cfg : Config D F) where
  -- `writeWAL`.
  unfoldable pub write_wal : List (WalOp D) → Io (Indexable F) (Unit {0})
  unfolding call
  write_wal ops = do
    content ← lift (encode_wal_content cfg.json ops)
    truncate_wal
    quiet
    on_error (write_at_start content) truncate_wal
    sync_wal

  -- The part of `Commit` behind `materializeOps`. An error of the last call is ignored.
  unfoldable pub commit_ops : List (WalOp D) → Io (Indexable F) (Unit {0})
  unfolding write_wal apply_ops_to_fs update_sqlite_index_from_ops call
  commit_ops ops = do
    write_wal ops
    wrap incomplete (apply_ops_to_fs ops)
    wrap incomplete (update_sqlite_index_from_ops cfg ops)
    ignore truncate_wal

  -- `recoverWalLocked` on a committed log.
  unfoldable pub replay_body : Bytes → Io (Indexable F) (Unit {0})
  unfolding apply_ops_to_fs update_sqlite_index_from_ops call
  replay_body body = do
    ops ← wrap replay (lift (decode_wal_ops cfg.json body))
    wrap replay (apply_ops_to_fs ops)
    wrap replay (update_sqlite_index_from_ops cfg ops)
    wrap replay truncate_wal

  abbrev pub recover_state : WalState → Bytes → Io (Indexable F) (Unit {0})
  recover_state empty_wal body = pure tt
  recover_state uncommitted body = truncate_wal
  recover_state committed body = replay_body body

  -- `recoverWalLocked`. Reading the log is one call.
  unfoldable pub recover_wal_locked : Io (Indexable F) (Unit {0})
  unfolding replay_body call
  recover_wal_locked = quiet >> λ w.
      (lift (read_wal_state w.disk.wal.text) >>= λ found. recover_state found.0 found.1) w
