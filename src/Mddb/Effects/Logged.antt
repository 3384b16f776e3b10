-- ===== src/Mddb/Effects/Logged.antt =====
-- The row of the document that an operation puts.
use agent_task.Text.{Bytes}
use agent_task.Mddb.Documents.{Indexable}
use agent_task.Mddb.Wal.{WalOp}

abbrev pub row_of : {D F : Type 0} → (Bytes → Bytes → Bytes → Indexable F) → WalOp D → Indexable F
row_of row op = row op.path op.content op.id
