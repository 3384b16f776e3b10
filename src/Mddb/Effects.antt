-- ===== src/Mddb/Effects.antt =====
-- What the operations of a transaction are meant to do to the files and to the index.
pub mod Files
pub mod Index
pub mod Logged
use agent_task.Prelude.{
  ℕ, ◌≡◌, ◌⊎◌, inl, inr, Bool, true, false, Option, none, some, List, [], ◌∷◌, ◌++◌, if◌then◌else◌,
  length, All,
}
use agent_task.Text.{Bytes, equal}
use agent_task.Mddb.Outcome.{Outcome, returned}
use agent_task.Mddb.Paths.{validate_rel_path}
use agent_task.Mddb.Documents.{Config, Indexable, parse_indexable}
use agent_task.Mddb.Wal.{WalOp, wal_op_put, wal_op_delete, kind_delete}
use agent_task.Mddb.Writes.{write_all}

module _ {D : Type 0} where
  -- A put gives the file its content, a delete removes it.
  abbrev pub file_write : WalOp D → Bytes × Option Bytes
  file_write op = (op.path, if equal op.op wal_op_put then some op.content else none)

  abbrev pub file_writes : List (WalOp D) → List (Bytes × Option Bytes)
  file_writes [] = []
  file_writes (op ∷ ops) = file_write op ∷ file_writes ops

  -- An operation that can be applied to the files.
  pub record IsSound (op : WalOp D) : Type 0 where
    pub path : validate_rel_path op.path ≡ returned tt
    pub known :
        ((equal op.op wal_op_put ≡ true)
          × (equal op.op wal_op_delete ≡ false)
          × (equal op.content [] ≡ false))
        ⊎ ((equal op.op wal_op_put ≡ false) × (equal op.op wal_op_delete ≡ true))

abbrev pub put_writes : {F : Type 0} → List (ℕ × Indexable F) → List (Bytes × Option (Indexable F))
put_writes [] = []
put_writes ((kind, row) ∷ puts) = (row.id, some row) ∷ put_writes puts

module _ {D F : Type 0} (row_of : WalOp D → Indexable F) where
  abbrev pub row_deletes : List (WalOp D) → List (Bytes × Option (Indexable F))
  row_deletes [] = []
  row_deletes (op ∷ ops) =
      if equal op.op wal_op_delete then (op.id, none) ∷ row_deletes ops else row_deletes ops

  abbrev pub puts_of : List (WalOp D) → List (ℕ × Indexable F)
  puts_of [] = []
  puts_of (op ∷ ops) =
      if equal op.op wal_op_delete then puts_of ops else (op.kind, row_of op) ∷ puts_of ops

  -- The rows of deleted ids are removed, and then the rows of the documents are put.
  abbrev pub row_writes : List (WalOp D) → List (Bytes × Option (Indexable F))
  row_writes ops = row_deletes ops ++ put_writes (puts_of ops)
