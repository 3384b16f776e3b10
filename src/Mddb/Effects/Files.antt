-- ===== src/Mddb/Effects/Files.antt =====
-- `applyOpsToFS` makes the files that the operations are meant to make, and on an error or a crash leaves
-- files from which it makes them when it is called again. At the end they are on the disk to stay.
use agent_task.Prelude.{
  ◌≡◌, inl, inr, refl, sym, ap, ◌∙◌, Bool, Bool-cases, true, false, ◌||◌, if◌then◌else◌, Option,
  none, some, List, [], ◌∷◌, All, arith,
}
use agent_task.Text.{Bytes, equal, equal_iff, equal_refl}
use agent_task.Mddb.Documents.{Indexable}
use agent_task.Mddb.Wal.{WalOp}
use agent_task.Mddb.Writes.{write_all, touched, Heals, update-Heals, touched_self, write_all-Heals}
use agent_task.Mddb.World.{Log, Disk, update}
use agent_task.Mddb.World.Hoare.{
  Hoare, pure-Hoare, lift-Hoare, bind-Hoare, step-Hoare, quiet-Hoare, weaken-Hoare,
}
use agent_task.Mddb.Apply.{
  Rows, change_file, apply_op, apply_each, sync_dirs, dir_of, apply_ops_to_fs,
}
use agent_task.Mddb.Effects.{file_write, file_writes, IsSound}

-- The path is in a directory of the operations.
abbrev in_dirs : {D : Type 0} → List (WalOp D) → Bytes → Bool
in_dirs [] p = false
in_dirs (op ∷ ops) p = equal (dir_of op.path) (dir_of p) || in_dirs ops p

touched-in_dirs :
    {D : Type 0} (ops : List (WalOp D)) (p : Bytes)
    → touched (file_writes ops) p ≡ true
    → in_dirs ops p ≡ true
unfolding touched
touched-in_dirs [] p t = t
touched-in_dirs (op ∷ ops) p t = elim (Bool-cases (equal op.path p)) [
  | inl same ↦
      let here : equal (dir_of op.path) (dir_of p) ≡ true =
        ap (λ q. equal (dir_of op.path) (dir_of q)) (sym ((equal_iff op.path p).0 same))
        ∙ equal_refl (dir_of op.path) in
      rw here refl
  | inr other ↦ let rest = touched-in_dirs ops p (rw other at t) in ground (arith, rest)
]

-- `K` is what holds of the log and the rows, which are left alone, `old` the files at the start.
module _ {D F : Type 0} (K : Log → Rows F → Type 0) (all : List (WalOp D))
    (old : Bytes → Option Bytes) where
  -- In the middle of it.
  pub record Midway (d : Disk (Indexable F)) : Type 0 where
    pub rest : K d.wal d.rows
    pub heals : Heals (file_writes all) old d.files
    pub heals_saved : Heals (file_writes all) old d.saved_files

  -- When the operations `ops` are left.
  record Ahead (ops : List (WalOp D)) (d : Disk (Indexable F)) : Type 0 where
    pub midway : Midway d
    pub ahead :
        (p : Bytes) → write_all (file_writes ops) d.files p ≡ write_all (file_writes all) old p

  -- When all files are written.
  record Written (d : Disk (Indexable F)) : Type 0 where
    pub midway : Midway d
    pub files : (p : Bytes) → d.files p ≡ write_all (file_writes all) old p

  -- And when the directories are synced.
  pub record Applied (d : Disk (Indexable F)) : Type 0 where
    pub midway : Midway d
    pub files : (p : Bytes) → d.files p ≡ write_all (file_writes all) old p
    pub saved_files : (p : Bytes) → d.saved_files p ≡ write_all (file_writes all) old p

  written :
      (op : WalOp D) (ops : List (WalOp D)) (v : Option Bytes) (d : Disk (Indexable F))
      → touched (file_writes all) op.path ≡ true
      → v ≡ (file_write op).1
      → Ahead (op ∷ ops) d
      → Ahead ops (record d { files = update d.files op.path v })
  unfolding write_all
  written op ops v d t e a = record {
    midway = record {
      rest = a.midway.rest;
      heals = update-Heals (file_writes all) old d.files op.path v t a.midway.heals;
      heals_saved = a.midway.heals_saved;
    };
    ahead = λ p. ap (λ v. write_all (file_writes ops) (update d.files op.path v) p) e ∙ a.ahead p;
  }

  change_file-Hoare :
      (op : WalOp D) (ops : List (WalOp D))
      → IsSound op
      → touched (file_writes all) op.path ≡ true
      → Hoare (Ahead (op ∷ ops)) (change_file op) (λ _. Ahead ops) Midway
  unfolding change_file
  change_file-Hoare op ops s t = elim s.known [
    | inl (is_put, _, filled) ↦
        rw (is_put, filled)
          (bind-Hoare (Ahead (op ∷ ops)) _ (λ _. Ahead (op ∷ ops)) _ _ Midway
            (lift-Hoare _ _ tt _ _ refl (λ d a. a))
            (λ _.
              bind-Hoare (Ahead (op ∷ ops)) _ (λ _. Ahead (op ∷ ops)) _ _ Midway
                (quiet-Hoare (Ahead (op ∷ ops)) Midway (λ d a. a.midway))
                (λ _.
                  step-Hoare (Ahead (op ∷ ops)) _ (Ahead ops) Midway (λ d a. a.midway)
                    (λ d a. written op ops (some op.content) d t (rw is_put refl) a))))
    | inr (not_put, is_delete) ↦
        rw (not_put, is_delete)
          (step-Hoare (Ahead (op ∷ ops)) _ (Ahead ops) Midway (λ d a. a.midway)
            (λ d a. written op ops none d t (rw not_put refl) a))
  ]

  apply_op-Hoare :
      (op : WalOp D) (ops : List (WalOp D))
      → IsSound op
      → touched (file_writes all) op.path ≡ true
      → Hoare (Ahead (op ∷ ops)) (apply_op op) (λ _. Ahead ops) Midway
  unfolding apply_op
  apply_op-Hoare op ops s t =
      bind-Hoare (Ahead (op ∷ ops)) _ (λ _. Ahead (op ∷ ops)) _ _ Midway
        (lift-Hoare _ _ tt _ _ s.path (λ d a. a))
        (λ _.
          bind-Hoare (Ahead (op ∷ ops)) _ (λ _. Ahead (op ∷ ops)) _ _ Midway
            (quiet-Hoare (Ahead (op ∷ ops)) Midway (λ d a. a.midway))
            (λ _. change_file-Hoare op ops s t))

  apply_each-Hoare :
      (ops : List (WalOp D))
      → All IsSound ops
      → All (λ (w : Bytes × Option Bytes). touched (file_writes all) w.0 ≡ true) (file_writes ops)
      → Hoare (Ahead ops) (apply_each ops) (λ _. Written) Midway
  unfolding apply_each write_all
  apply_each-Hoare [] s t =
      pure-Hoare (Ahead []) tt _ _ (λ d a. record { midway = a.midway; files = a.ahead })
  apply_each-Hoare (op ∷ ops) (s, ss) (t, ts) =
      bind-Hoare (Ahead (op ∷ ops)) _ (λ _. Ahead ops) _ _ Midway (apply_op-Hoare op ops s t)
        (λ _. apply_each-Hoare ops ss ts)

  -- The directories of the operations `ops` are left to sync.
  record Unsynced (ops : List (WalOp D)) (d : Disk (Indexable F)) : Type 0 where
    pub written : Written d
    pub synced :
        (p : Bytes)
        → touched (file_writes all) p ≡ true
        → in_dirs ops p ≡ false
        → d.saved_files p ≡ d.files p

  sync_one :
      (op : WalOp D) (ops : List (WalOp D)) (d : Disk (Indexable F))
      → Unsynced (op ∷ ops) d
      → Unsynced ops (record d {
        saved_files = λ p. if equal (dir_of op.path) (dir_of p) then d.files p else d.saved_files p;
      })
  sync_one op ops d u = record {
    written = record {
      midway = record {
        rest = u.written.midway.rest;
        heals = u.written.midway.heals;
        heals_saved = λ p t. elim (Bool-cases (equal (dir_of op.path) (dir_of p))) [
          | inl here ↦ rw here (u.written.midway.heals p t)
          | inr other ↦ rw other (u.written.midway.heals_saved p t)
        ];
      };
      files = u.written.files;
    };
    synced = λ p t left. elim (Bool-cases (equal (dir_of op.path) (dir_of p))) [
      | inl here ↦ rw here refl
      | inr other ↦ rw other (u.synced p t (rw (other, left) refl))
    ];
  }

  sync_dirs-Hoare :
      (ops : List (WalOp D)) → Hoare (Unsynced ops) (sync_dirs ops) (λ _. Applied) Midway
  unfolding sync_dirs
  sync_dirs-Hoare [] = pure-Hoare (Unsynced []) tt _ _ (λ d u. record {
    midway = u.written.midway;
    files = u.written.files;
    saved_files = λ p.
        elim (Bool-cases (touched (file_writes all) p)) [
          | inl t ↦ u.synced p t refl
          | inr t ↦ u.written.midway.heals_saved p t ∙ sym (u.written.midway.heals p t)
        ]
        ∙ u.written.files p;
  })
  sync_dirs-Hoare (op ∷ ops) =
      bind-Hoare (Unsynced (op ∷ ops)) _ (λ _. Unsynced ops) _ _ Midway
        (step-Hoare (Unsynced (op ∷ ops)) _ (Unsynced ops) Midway (λ d u. u.written.midway)
          (sync_one op ops))
        (λ _. sync_dirs-Hoare ops)

  -- From files that the writes heal.
  pub apply_ops_to_fs-Hoare :
      All IsSound all → Hoare Midway (apply_ops_to_fs all) (λ _. Applied) Midway
  unfolding apply_ops_to_fs
  apply_ops_to_fs-Hoare s =
      bind-Hoare Midway _ (λ _. Written) _ _ Midway
        (weaken-Hoare Midway (Ahead all) _ _ _
          (λ d m. record {
            midway = m;
            ahead = write_all-Heals (file_writes all) old d.files m.heals;
          })
          (apply_each-Hoare all s (touched_self (file_writes all))))
        (λ _.
          weaken-Hoare Written (Unsynced all) _ _ _
            (λ d w. record { written = w; synced = λ p t left. cc (touched-in_dirs all p t, left) })
            (sync_dirs-Hoare all))
