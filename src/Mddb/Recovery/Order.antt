-- ===== src/Mddb/Recovery/Order.antt =====
-- `Commit` goes through a map, whose order is any.
use agent_task.Prelude.{◌≡◌, refl, sym, ◌∙◌, List, [], Bool-cases, inl, inr}
use agent_task.Text.{Bytes, equal}
use agent_task.Mddb.Documents.{Config, Indexable}
use agent_task.Mddb.Wal.{WalOp, wal_op_delete}
use agent_task.Mddb.World.{Disk, World, went}
use agent_task.Mddb.Tx.Buffer.{IsMap}
use agent_task.Mddb.Orders.{
  Reordered, same, behind, swap, via, Reordered-append, write_all-Reordered,
}
use agent_task.Mddb.Effects.{file_write, file_writes, row_deletes, puts_of, put_writes, row_writes}
use agent_task.Mddb.Effects.Logged.{row_of}
use agent_task.Mddb.Commit.{commit_ops}
use agent_task.Mddb.Recovery.{IsCommittable, IsNew}
use agent_task.Mddb.Recovery.Committing.{Done, Safe}
use agent_task.Mddb.Recovery.Crashes.{restart, Post-went, committed}

pub file_writes-Reordered :
    {D : Type 0} {xs ys : List (WalOp D)}
    → Reordered xs ys
    → Reordered (file_writes xs) (file_writes ys)
file_writes-Reordered (same xs) = same (file_writes xs)
file_writes-Reordered (behind x r) = behind (file_write x) (file_writes-Reordered r)
file_writes-Reordered (swap x y xs) = swap (file_write x) (file_write y) (file_writes xs)
file_writes-Reordered (via r s) = via (file_writes-Reordered r) (file_writes-Reordered s)

module _ {D F : Type 0} (row : Bytes → Bytes → Bytes → Indexable F) where
  row_writes-Reordered :
      {xs ys : List (WalOp D)}
      → Reordered xs ys
      → Reordered (row_deletes (row_of row) xs) (row_deletes (row_of row) ys)
        × Reordered (put_writes (puts_of (row_of row) xs)) (put_writes (puts_of (row_of row) ys))
  row_writes-Reordered (same xs) =
      (same (row_deletes (row_of row) xs), same (put_writes (puts_of (row_of row) xs)))
  row_writes-Reordered (behind x r) =
      let (d, p) = row_writes-Reordered r in
      elim (Bool-cases (equal x.op wal_op_delete)) [
        | inl e ↦ rw e (behind _ d, p)
        | inr e ↦ rw e (d, behind _ p)
      ]
  row_writes-Reordered (swap x y xs) = elim (Bool-cases (equal x.op wal_op_delete)) [
    | inl e ↦ elim (Bool-cases (equal y.op wal_op_delete)) [
      | inl f ↦ rw (e, f) (swap _ _ _, same _)
      | inr f ↦ rw (e, f) (same _, same _)
    ]
    | inr e ↦ elim (Bool-cases (equal y.op wal_op_delete)) [
      | inl f ↦ rw (e, f) (same _, same _)
      | inr f ↦ rw (e, f) (same _, swap _ _ _)
    ]
  ]
  row_writes-Reordered (via r s) =
      let (d, p) = row_writes-Reordered r in
      let (d', p') = row_writes-Reordered s in (via d d', via p p')

module _ {D F : Type 0} (cfg : Config D F) (row : Bytes → Bytes → Bytes → Indexable F)
    (d : Disk (Indexable F)) where
  pub returned-IsNew :
      (ops : List (WalOp D)) (content : Bytes)
      → d.wal.text ≡ []
      → ((p : Bytes) → d.saved_files p ≡ d.files p)
      → IsCommittable cfg row ops d.files content
      → (end : World (Indexable F)) × (commit_ops cfg ops (restart [] d) ≡ went tt end)
        × IsNew row ops d.files d.rows content end.disk
  returned-IsNew ops content empty settled c =
      let (_, end, e, (_, n)) =
        Post-went (restart [] d) (Done cfg row ops d.files d.rows content d.wal.saved c)
          (Safe cfg row ops d.files d.rows content d.wal.saved c)
          (commit_ops cfg ops (restart [] d)) (record { alive = refl; faults = refl })
          (committed cfg row ops content (restart [] d) c empty settled) in
      (end, e, n)

  -- Two commits of the same operations in different orders, which write no path and no row twice, on an empty
  -- log and on files that are all safe, return if no call of the system fails, and leave the same files
  -- and the same rows. For both orders, JSON is read as it is written and has no zero bytes, the
  -- operations are valid texts that the log takes and whose paths are accepted, their documents can be
  -- indexed, the callbacks return, and the log is shorter than 2 to the 56.
  pub commit-Reordered :
      (ops others : List (WalOp D)) (content other_content : Bytes)
      → d.wal.text ≡ []
      → ((p : Bytes) → d.saved_files p ≡ d.files p)
      → IsCommittable cfg row ops d.files content
      → IsCommittable cfg row others d.files other_content
      → Reordered ops others
      → IsMap (file_writes ops)
      → IsMap (row_writes (row_of row) ops)
      → (v w : World (Indexable F)) × (commit_ops cfg ops (restart [] d) ≡ went tt v)
        × (commit_ops cfg others (restart [] d) ≡ went tt w)
        × ((p : Bytes) → v.disk.files p ≡ w.disk.files p)
        × ((id : Bytes) → v.disk.rows id ≡ w.disk.rows id)
  commit-Reordered ops others content other_content empty settled c c' r paths ids =
      let (v, e, n) = returned-IsNew ops content empty settled c in
      let (w, e', n') = returned-IsNew others other_content empty settled c' in
      let (deletes, puts) = row_writes-Reordered row r in
      (
        v,
        w,
        e,
        e',
        λ p.
            n.new_files p
            ∙ write_all-Reordered (file_writes ops) (file_writes others) d.files
                (file_writes-Reordered r) paths p
            ∙ sym (n'.new_files p),
        λ id.
            n.new_rows id
            ∙ write_all-Reordered (row_writes (row_of row) ops) (row_writes (row_of row) others)
                d.rows (Reordered-append deletes puts) ids id
            ∙ sym (n'.new_rows id),
      )
