-- ===== src/Mddb/Materialize.antt =====
-- pkg/mddb/tx.go: `materializeOps`.
use agent_task.Prelude.{not, Option, none, some, List, [], ◌∷◌, if◌then◌else◌}
use agent_task.Text.{Bytes, equal}
use agent_task.Mddb.Outcome.{Outcome, returned, failed, invalid, ◌>>=◌}
use agent_task.Mddb.Documents.{Config, marshal_document}
use agent_task.Mddb.Wal.{WalOp, wal_op_put}

module _ {D F : Type 0} (cfg : Config D F) where
  -- The content of an operation is the document at the time of the commit.
  unfoldable pub content_of : WalOp D → Option D → Outcome Bytes
  unfolding marshal_document
  content_of op none = failed invalid
  content_of op (some doc) = marshal_document cfg doc

  unfoldable pub materialize_op : WalOp D → Outcome (WalOp D)
  unfolding content_of
  materialize_op op =
      if not (equal op.op wal_op_put)
      then returned op
      else if not (equal op.content [])
      then returned op
      else content_of op op.doc >>= λ content. returned (record op { content = content })

  -- `materializeOps`.
  unfoldable pub materialize_ops : List (WalOp D) → Outcome (List (WalOp D))
  unfolding materialize_op
  materialize_ops [] = returned []
  materialize_ops (op ∷ ops) =
      materialize_op op >>= λ op'. materialize_ops ops >>= λ ops'. returned (op' ∷ ops')
