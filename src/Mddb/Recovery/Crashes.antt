-- ===== src/Mddb/Recovery/Crashes.antt =====
-- Commits and recoveries with any faults, one behind the other.
use agent_task.Prelude.{Option, All, length, ◌<◌, ◌^◌, ◌≡◌, inr, refl, true, List, [], ◌∷◌, subst}
use agent_task.Text.{Bytes}
use agent_task.Mddb.Documents.{Config, Indexable}
use agent_task.Mddb.Outcome.{returned, replay, invalid}
use agent_task.Mddb.Wal.{WalOp, encode_wal_content}
use agent_task.Mddb.Wal.Json.{IsJson}
use agent_task.Mddb.Wal.Encoding.{IsWritable, decode_wal_ops-encode_wal_content}
use agent_task.Mddb.World.{Loss, lose, Disk, World, Fault, Ended, stopped, went}
use agent_task.Mddb.World.Hoare.{Post, IsCalm}
use agent_task.Mddb.Commit.{commit_ops, replay_body, recover_wal_locked}
use agent_task.Mddb.Recovery.{IsCommittable}
use agent_task.Mddb.Recovery.Recovering.{IsReplayable}
use agent_task.Mddb.Recovery.Recovering
use agent_task.Mddb.Recovery.Committing.{
  Safe, IsSafe, lose-Safe, Done, IsDone, lose-Done, commit-Hoare,
}

-- A new process on a disk, and the disk that a computation leaves.
abbrev pub restart : {R : Type 0} → List Fault → Disk R → World R
restart faults d = record { disk = d; alive = true; faults = faults }

abbrev pub disk_after : {R A : Type 0} → Ended R A → Disk R
disk_after (stopped e w) = w.disk
disk_after (went a w) = w.disk

-- Recoveries one after the other, each in a new process with its own faults, behind a loss of power.
abbrev pub retry :
    {D F : Type 0} → Config D F → List (Loss × List Fault) → Disk (Indexable F) → Disk (Indexable F)
retry cfg [] d = d
retry cfg ((l, faults) ∷ attempts) d =
    retry cfg attempts (disk_after (recover_wal_locked cfg (restart faults (lose l d))))

Post-safe :
    {R A : Type 0} (w : World R) (P : Disk R → Type 0) (Q E : Disk R → Type 0) (r : Ended R A)
    → ((d : Disk R) → Q d → P d)
    → ((d : Disk R) → E d → P d)
    → Post w (λ _. Q) E r
    → P (disk_after r)
Post-safe w P Q E (stopped e w') q e' (h, _) = e' w'.disk h
Post-safe w P Q E (went a w') q e' (h, _) = q w'.disk h

-- With calls that are all fine, a computation returns.
pub Post-went :
    {R A : Type 0} (w : World R) (Q E : Disk R → Type 0) (r : Ended R A)
    → IsCalm w
    → Post w (λ _. Q) E r
    → (a : A) × (w' : World R) × (r ≡ went a w') × Q w'.disk
Post-went w Q E (stopped e w') calm (_, never) = absurd (never calm)
Post-went w Q E (went a w') calm (q, _) = (a, w', refl, q)

module _ {D F : Type 0} (cfg : Config D F) (row : Bytes → Bytes → Bytes → Indexable F)
    (ops : List (WalOp D)) (content : Bytes) where
  module _ (w : World (Indexable F)) (c : IsCommittable cfg row ops w.disk.files content) where
    pub committed :
        w.disk.wal.text ≡ []
        → ((p : Bytes) → w.disk.saved_files p ≡ w.disk.files p)
        → Post w
            (λ _. Done cfg row ops w.disk.files w.disk.rows content w.disk.wal.saved c)
            (Safe cfg row ops w.disk.files w.disk.rows content w.disk.wal.saved c)
            (commit_ops cfg ops w)
    committed empty settled =
        (commit-Hoare cfg row ops w.disk.files w.disk.rows content w.disk.wal.saved c).at w (
          record { size = 0; text = empty; saved = refl },
          record { same_files = λ p. refl; same_saved = settled; same_rows = λ id. refl },
        )

    -- A transaction is committed on an empty log and on files that are all safe, with any faults or a crash
    -- in it, and then the power goes. What is left is one of three: the files and the rows as they were,
    -- with a log that holds nothing to replay, or what was safe of it before, or the whole transaction;
    -- the whole log, with at most files and rows of the transaction changed; or the files and the rows as
    -- the transaction makes them, with an empty log or the whole one. JSON is read as it is written and has no zero bytes. The operations
    -- are valid texts that the log takes and whose paths are accepted, their documents can be indexed, the
    -- callbacks return, and the log is shorter than 2 to the 56.
    pub commit-IsLogged :
        (l : Loss)
        → w.disk.wal.text ≡ []
        → ((p : Bytes) → w.disk.saved_files p ≡ w.disk.files p)
        → IsSafe cfg row ops w.disk.files w.disk.rows content w.disk.wal.saved c
            (lose l (disk_after (commit_ops cfg ops w)))
    commit-IsLogged l empty settled =
        Post-safe w
          (λ d. IsSafe cfg row ops w.disk.files w.disk.rows content w.disk.wal.saved c (lose l d)) _
          _ (commit_ops cfg ops w)
          (λ d n.
            inr (
              inr
                (lose-Done cfg row ops w.disk.files w.disk.rows content w.disk.wal.saved c l d n)))
          (lose-Safe cfg row ops w.disk.files w.disk.rows content w.disk.wal.saved c l)
          (committed empty settled)

    -- Once a commit on an empty log and on files that are all safe has returned, the files and the rows are
    -- as the transaction makes them when the power goes, and the log is empty or holds the whole
    -- transaction. JSON is read as it is written and has no zero bytes. The operations are valid texts that the log takes and whose paths are accepted, their
    -- documents can be indexed, the callbacks return, and the log is shorter than 2 to the 56.
    pub commit-IsDurable :
        (l : Loss) (w' : World (Indexable F))
        → w.disk.wal.text ≡ []
        → ((p : Bytes) → w.disk.saved_files p ≡ w.disk.files p)
        → commit_ops cfg ops w ≡ went tt w'
        → IsDone cfg row ops w.disk.files w.disk.rows content w.disk.wal.saved c (lose l w'.disk)
    commit-IsDurable l w' empty settled e =
        lose-Done cfg row ops w.disk.files w.disk.rows content w.disk.wal.saved c l w'.disk
          (subst
            (Post w (λ _. Done cfg row ops w.disk.files w.disk.rows content w.disk.wal.saved c)
              (Safe cfg row ops w.disk.files w.disk.rows content w.disk.wal.saved c))
            e (committed empty settled)).0

  module _ (files : Bytes → Option Bytes) (rows : Bytes → Option (Indexable F))
      (c : IsReplayable cfg row ops files content) where
    abbrev Ok : Disk (Indexable F) → Type 0
    Ok = Recovering.Safe cfg row ops files rows content c

  -- The log holds what a commit of at least one operation writes. A recovery without faults refuses it with
  -- `ErrWALReplay`, and leaves everything as it is. JSON is read as it is written, where the kind is a
  -- number, the operations are valid texts that the log takes, and the log is shorter than 2 to the 63.
  pub recover-encoded :
      (op : WalOp D) (rest : List (WalOp D)) (d : Disk (Indexable F))
      → IsJson cfg.json
      → All (IsWritable cfg.json) (op ∷ rest)
      → encode_wal_content cfg.json (op ∷ rest) ≡ returned d.wal.text
      → length d.wal.text < 2 ^ 63
      → recover_wal_locked cfg (restart [] d) ≡ stopped (replay invalid) (restart [] d)
  unfolding recover_wal_locked replay_body
  recover-encoded op rest d json writable e short =
      let (body, state, refused) =
        decode_wal_ops-encode_wal_content cfg.json json op rest d.wal.text writable e short in
      rw (state, refused) refl
