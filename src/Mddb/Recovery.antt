-- ===== src/Mddb/Recovery.antt =====
-- What a commit leaves, whatever calls of the system fail in it or wherever the process crashes, and what
-- `recoverWalLocked` makes of a log that it can decode.
pub mod Replaying
pub mod Recovering
pub mod Committing
pub mod Crashes
pub mod Order
pub mod Later
use agent_task.Prelude.{
  ℕ, ◌^◌, ◌<◌, ◌≡◌, ◌⊎◌, inl, inr, refl, sym, ap, ◌∙◌, Bool, true, false, Option, none, some, List,
  [], ◌∷◌, ◌++◌, append-nil, if◌then◌else◌, Bool-cases, length, take, drop, ltb, All, subst, arith,
}
use agent_task.Text.{Bytes, equal}
use agent_task.Mddb.Outcome.{Outcome, returned, replay, incomplete}
use agent_task.Mddb.Documents.{Config, Indexable}
use agent_task.Mddb.Wal.{
  WalOp, WalState, empty_wal, uncommitted, committed, encode_wal_content, decode_wal_ops,
  read_wal_state, footer,
}
use agent_task.Mddb.Wal.Json.{IsJson}
use agent_task.Mddb.Wal.Torn.{IsDropped, torn_write}
use agent_task.Mddb.Wal.Encoding.{IsWritable}
use agent_task.Mddb.Writes.{write_all, touched, Heals, Heals-refl, touched_self, write_all_part}
use agent_task.Mddb.World.{
  Loss, Disk, lose, surviving, synced_log, World, Io, pure, ◌>>=◌, ◌>>◌, lift, wrap, on_error,
  ignore, call, step, quiet, truncate_wal, write_at_start, sync_wal,
}
use agent_task.Mddb.World.Hoare.{
  Hoare, Post, pure-Hoare, lift-Hoare, bind-Hoare, step-Hoare, call-Hoare, quiet-Hoare, wrap-Hoare,
  on_error-Hoare, ignore-Hoare, fact-Hoare, weaken-Hoare, relax-Hoare,
}
use agent_task.Mddb.Apply.{Rows, apply_ops_to_fs, update_sqlite_index_from_ops}
use agent_task.Mddb.Effects.Logged.{row_of}
use agent_task.Mddb.Effects.{file_writes, row_writes, row_deletes, puts_of, put_writes, IsSound}
use agent_task.Mddb.Effects.Files.{Midway, Applied, apply_ops_to_fs-Hoare}
use agent_task.Mddb.Effects.Index.{IsIndexed, Indexing, Indexed, update_sqlite_index_from_ops-Hoare}
use agent_task.Mddb.Commit.{write_wal, commit_ops, replay_body, recover_state, recover_wal_locked}

-- The operations of a transaction that can be committed, and the text of their log. `row` gives the row
-- of a document, `files` what the files are before.
pub record IsCommittable {D F : Type 0} (cfg : Config D F)
    (row : Bytes → Bytes → Bytes → Indexable F) (ops : List (WalOp D))
    (files : Bytes → Option Bytes) (content : Bytes) : Type 0 where
  pub json : IsJson cfg.json
  pub writable : All (IsWritable cfg.json) ops
  pub sound : All IsSound ops
  pub indexed : All (IsIndexed cfg (row_of row) (write_all (file_writes ops) files)) ops
  pub encoded : encode_wal_content cfg.json ops ≡ returned content
  pub short : length content < 2 ^ 56

-- What a disk can be: as before the transaction, with its log to replay, or as after it. What is said of
-- the files is said of those that are safe, too.
module _ {D F : Type 0} (row : Bytes → Bytes → Bytes → Indexable F) (ops : List (WalOp D))
    (files : Bytes → Option Bytes) (rows : Bytes → Option (Indexable F)) (content : Bytes) where
  pub record IsOld (d : Disk (Indexable F)) : Type 0 where
    pub same_files : (p : Bytes) → d.files p ≡ files p
    pub same_saved : (p : Bytes) → d.saved_files p ≡ files p
    pub same_rows : (id : Bytes) → d.rows id ≡ rows id

  pub record IsNew (d : Disk (Indexable F)) : Type 0 where
    pub new_files : (p : Bytes) → d.files p ≡ write_all (file_writes ops) files p
    pub new_saved : (p : Bytes) → d.saved_files p ≡ write_all (file_writes ops) files p
    pub new_rows : (id : Bytes) → d.rows id ≡ write_all (row_writes (row_of row) ops) rows id

  -- The whole log is safe, and only files and rows of the transaction are changed.
  pub record IsPending (d : Disk (Indexable F)) : Type 0 where
    pub logged : d.wal ≡ synced_log content
    pub heals_files : Heals (file_writes ops) files d.files
    pub heals_saved : Heals (file_writes ops) files d.saved_files
    pub heals_rows : Heals (row_writes (row_of row) ops) rows d.rows

  pub old-IsPending : (d : Disk (Indexable F)) → d.wal ≡ synced_log content → IsOld d → IsPending d
  old-IsPending d e o = record {
    logged = e;
    heals_files = λ p u. o.same_files p;
    heals_saved = λ p u. o.same_saved p;
    heals_rows = λ id u. o.same_rows id;
  }

  pub new-IsPending : (d : Disk (Indexable F)) → d.wal ≡ synced_log content → IsNew d → IsPending d
  new-IsPending d e n =
      let fw = file_writes ops in
      let rw' = row_writes (row_of row) ops in
      record {
        logged = e;
        heals_files = λ p u.
            n.new_files p
            ∙ write_all_part fw fw files files (touched_self fw) (Heals-refl fw files) p u;
        heals_saved = λ p u.
            n.new_saved p
            ∙ write_all_part fw fw files files (touched_self fw) (Heals-refl fw files) p u;
        heals_rows = λ id u.
            n.new_rows id
            ∙ write_all_part rw' rw' rows rows (touched_self rw') (Heals-refl rw' rows) id u;
      }

  -- Without power it stays such.
  module _ (l : Loss) (d : Disk (Indexable F)) where
    lost_file :
        (P : Option Bytes → Type 0) (p : Bytes)
        → P (d.files p)
        → P (d.saved_files p)
        → P (if l.kept p then d.files p else d.saved_files p)
    lost_file P p seen saved = elim (Bool-cases (l.kept p)) [
      | inl kept ↦ rw kept seen
      | inr lost ↦ rw lost saved
    ]

    pub lose-IsOld : IsOld d → IsOld (lose l d)
    lose-IsOld o =
        let same =
          λ (p : Bytes). lost_file (λ f. f ≡ files p) p (o.same_files p) (o.same_saved p) in
        record { same_files = same; same_saved = same; same_rows = o.same_rows }

    pub lose-IsNew : IsNew d → IsNew (lose l d)
    lose-IsNew n =
        let new = λ (p : Bytes).
          lost_file (λ f. f ≡ write_all (file_writes ops) files p) p (n.new_files p)
            (n.new_saved p) in
        record { new_files = new; new_saved = new; new_rows = n.new_rows }

    pub lose-IsPending : IsPending d → IsPending (lose l d)
    lose-IsPending i =
        let healed = λ (p : Bytes) (u : touched (file_writes ops) p ≡ false).
          lost_file (λ f. f ≡ files p) p (i.heals_files p u) (i.heals_saved p u) in
        record {
          logged = ap (λ w. synced_log (surviving l w)) i.logged;
          heals_files = healed;
          heals_saved = healed;
          heals_rows = i.heals_rows;
        }
