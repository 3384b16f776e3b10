-- ===== src/Mddb/Recovery/Replaying.antt =====
-- `recoverWalLocked` on every disk that a commit or an earlier recovery may leave.
use agent_task.Prelude.{◌≡◌, ◌∙◌, Option, List, All}
use agent_task.Text.{Bytes}
use agent_task.Mddb.Documents.{Config, Indexable}
use agent_task.Mddb.Wal.{WalOp}
use agent_task.Mddb.Writes.{write_all, Heals, Heals-refl, touched_self, write_all_part}
use agent_task.Mddb.World.{Log, Disk, synced_log}
use agent_task.Mddb.World.Hoare.{Hoare, consequence-Hoare}
use agent_task.Mddb.Apply.{Rows, apply_ops_to_fs, update_sqlite_index_from_ops}
use agent_task.Mddb.Effects.{file_writes, row_writes, IsSound}
use agent_task.Mddb.Effects.Files.{Midway, Applied, apply_ops_to_fs-Hoare}
use agent_task.Mddb.Effects.Index.{IsIndexed, Indexing, Indexed, update_sqlite_index_from_ops-Hoare}
use agent_task.Mddb.Effects.Logged.{row_of}
use agent_task.Mddb.Recovery.{IsNew, IsPending}

module _ {D F : Type 0} (cfg : Config D F) (row : Bytes → Bytes → Bytes → Indexable F)
    (ops : List (WalOp D)) (files : Bytes → Option Bytes) (rows : Bytes → Option (Indexable F))
    (content : Bytes) where
  abbrev Pending : Disk (Indexable F) → Type 0
  Pending = IsPending row ops files rows content

  abbrev New : Disk (Indexable F) → Type 0
  New = IsNew row ops files rows content

  -- The log, and rows that the writes heal, while files are written.
  abbrev pub Kept : Log → Rows F → Type 0
  Kept wal rs = (wal ≡ synced_log content) × Heals (row_writes (row_of row) ops) rows rs

  -- The disk with all files written.
  abbrev pub HasFiles : Disk (Indexable F) → Type 0
  HasFiles =
      Indexing cfg (row_of row) (write_all (file_writes ops) files)
        (λ wal. wal ≡ synced_log content) ops rows

  abbrev pub HasRows : Disk (Indexable F) → Type 0
  HasRows =
      Indexed cfg (row_of row) (write_all (file_writes ops) files) (λ wal. wal ≡ synced_log content)
        ops rows

  -- Applying the operations of a transaction, whose log is written, to the files.
  pub apply-Hoare : All IsSound ops → Hoare Pending (apply_ops_to_fs ops) (λ _. HasFiles) Pending
  apply-Hoare sound =
      consequence-Hoare Pending (Midway Kept ops files) _ _ (λ _. Applied Kept ops files) _
        (Midway Kept ops files) (apply_ops_to_fs-Hoare Kept ops files sound)
        (λ d p. record {
          rest = (p.logged, p.heals_rows);
          heals = p.heals_files;
          heals_saved = p.heals_saved;
        })
        (λ _ d a. record {
          wal = a.midway.rest.0;
          made = a.files;
          made_saved = a.saved_files;
          heals = a.midway.rest.1;
        })
        (λ d m. record {
          logged = m.rest.0;
          heals_files = m.heals;
          heals_saved = m.heals_saved;
          heals_rows = m.rest.1;
        })

  files-Pending : (d : Disk (Indexable F)) → HasFiles d → Pending d
  files-Pending d h =
      let fw = file_writes ops in
      record {
        logged = h.wal;
        heals_files = λ p u.
            h.made p ∙ write_all_part fw fw files files (touched_self fw) (Heals-refl fw files) p u;
        heals_saved = λ p u.
            h.made_saved p
            ∙ write_all_part fw fw files files (touched_self fw) (Heals-refl fw files) p u;
        heals_rows = h.heals;
      }

  rows-New : (d : Disk (Indexable F)) → HasRows d → New d
  rows-New d h = record {
    new_files = h.indexing.made;
    new_saved = h.indexing.made_saved;
    new_rows = h.rows;
  }

  -- And then to the index.
  pub index-Hoare :
      All IsSound ops
      → All (IsIndexed cfg (row_of row) (write_all (file_writes ops) files)) ops
      → Hoare HasFiles
          (update_sqlite_index_from_ops cfg ops)
          (λ _ d. (d.wal ≡ synced_log content) × New d)
          Pending
  index-Hoare sound indexed =
      consequence-Hoare HasFiles HasFiles _ _ (λ _. HasRows) _ HasFiles
        (update_sqlite_index_from_ops-Hoare cfg (row_of row) (write_all (file_writes ops) files)
          (λ wal. wal ≡ synced_log content) ops rows sound indexed)
        (λ d h. h) (λ _ d h. (h.indexing.wal, rows-New d h)) files-Pending
