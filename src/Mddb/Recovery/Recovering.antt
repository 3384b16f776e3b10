-- ===== src/Mddb/Recovery/Recovering.antt =====
-- `recoverWalLocked` on a committed log whose operations it can decode, whatever an earlier recovery left.
use agent_task.Prelude.{
  ℕ, zero, suc, ◌≡◌, ◌⊎◌, inl, inr, refl, sym, ap, ◌∙◌, true, Bool-cases, Option, List, [], All,
  subst, take,
}
use agent_task.Text.{Bytes}
use agent_task.Mddb.Outcome.{returned, replay}
use agent_task.Mddb.Documents.{Config, Indexable}
use agent_task.Mddb.Wal.{WalOp, WalState, empty_wal, committed, decode_wal_ops, read_wal_state}
use agent_task.Mddb.Writes.{write_all}
use agent_task.Mddb.World.{
  Log, Loss, Disk, lose, surviving, synced_log, ◌>>=◌, ◌>>◌, lift, wrap, truncate_wal,
}
use agent_task.Mddb.World.Hoare.{
  Hoare, Post, pure-Hoare, lift-Hoare, bind-Hoare, step-Hoare, quiet-Hoare, wrap-Hoare, fact-Hoare,
  relax-Hoare,
}
use agent_task.Mddb.Apply.{apply_ops_to_fs, update_sqlite_index_from_ops}
use agent_task.Mddb.Effects.{file_writes, IsSound}
use agent_task.Mddb.Effects.Index.{IsIndexed}
use agent_task.Mddb.Effects.Logged.{row_of}
use agent_task.Mddb.Commit.{replay_body, recover_state, recover_wal_locked}
use agent_task.Mddb.Recovery.{IsNew, IsPending, new-IsPending, lose-IsNew, lose-IsPending}
use agent_task.Mddb.Recovery.Replaying.{HasFiles, apply-Hoare, index-Hoare}

-- A log that is committed and decodes to operations that can be applied. `row` gives the row of a
-- document, `files` what the files were.
pub record IsReplayable {D F : Type 0} (cfg : Config D F)
    (row : Bytes → Bytes → Bytes → Indexable F) (ops : List (WalOp D))
    (files : Bytes → Option Bytes) (content : Bytes) : Type 0 where
  pub body : Bytes
  pub state : read_wal_state content ≡ returned (committed, body)
  pub decoded : decode_wal_ops cfg.json body ≡ returned ops
  pub sound : All IsSound ops
  pub indexed : All (IsIndexed cfg (row_of row) (write_all (file_writes ops) files)) ops

take-nil : (n : ℕ) → take {A = ℕ} n [] ≡ []
take-nil zero = refl
take-nil (suc n) = refl

module _ {D F : Type 0} (cfg : Config D F) (row : Bytes → Bytes → Bytes → Indexable F)
    (ops : List (WalOp D)) (files : Bytes → Option Bytes) (rows : Bytes → Option (Indexable F))
    (content : Bytes) (c : IsReplayable cfg row ops files content) where
  abbrev pub Pending : Disk (Indexable F) → Type 0
  Pending = IsPending row ops files rows content

  abbrev pub New : Disk (Indexable F) → Type 0
  New = IsNew row ops files rows content

  -- The log is empty. If this is not synced, all of the old log may come back.
  pub record Emptied (w : Log) : Type 0 where
    pub text : w.text ≡ []
    pub saved : (w.synced ≡ true) ⊎ (w.saved ≡ content)

  abbrev pub Settled : Disk (Indexable F) → Type 0
  Settled d = Emptied d.wal × New d

  abbrev pub Safe : Disk (Indexable F) → Type 0
  Safe d = Settled d ⊎ Pending d

  finish-Hoare :
      Hoare
        (λ d. (d.wal ≡ synced_log content) × New d)
        (wrap replay truncate_wal)
        (λ _. Settled)
        Safe
  finish-Hoare = wrap-Hoare _ replay truncate_wal _ _ (
      step-Hoare _ _ _ _ (λ d (e, n). inr (new-IsPending row ops files rows content d e n))
        (λ d (e, n). (
          record { text = refl; saved = inr (ap (λ (w : Log). w.saved) e) },
          record { new_files = n.new_files; new_saved = n.new_saved; new_rows = n.new_rows },
        )))

  replay-Hoare : Hoare Pending (replay_body cfg c.body) (λ _. Settled) Safe
  unfolding replay_body
  replay-Hoare =
      bind-Hoare Pending _ (λ os d. (os ≡ ops) × Pending d) _ _ Safe
        (wrap-Hoare _ replay _ _ _ (lift-Hoare _ _ ops _ _ c.decoded (λ d p. (refl, p))))
        (λ os. fact-Hoare (os ≡ ops) Pending _ _ Safe (λ e.
          subst
            (λ os.
              Hoare Pending
                (wrap replay (apply_ops_to_fs os)
                  >> (wrap replay (update_sqlite_index_from_ops cfg os)
                      >> wrap replay truncate_wal))
                (λ _. Settled) Safe)
            (sym e)
            (bind-Hoare Pending _ (λ _. HasFiles cfg row ops files rows content) _ _ Safe
              (wrap-Hoare _ replay _ _ _ (
                relax-Hoare _ _ _ Pending Safe (λ d p. inr p)
                  (apply-Hoare cfg row ops files rows content c.sound)))
              (λ _.
                bind-Hoare _ _ (λ _ d. (d.wal ≡ synced_log content) × New d) _ _ Safe
                  (wrap-Hoare _ replay _ _ _ (
                    relax-Hoare _ _ _ _ Safe (λ d p. inr p)
                      (index-Hoare cfg row ops files rows content c.sound c.indexed)))
                  (λ _. finish-Hoare)))))

  reading-Hoare :
      (P : Disk (Indexable F) → Type 0) (state : WalState) (body : Bytes)
      → ((d : Disk (Indexable F)) → P d → read_wal_state d.wal.text ≡ returned (state, body))
      → ((d : Disk (Indexable F)) → P d → Safe d)
      → Hoare P (recover_state cfg state body) (λ _. Settled) Safe
      → Hoare P (recover_wal_locked cfg) (λ _. Settled) Safe
  unfolding recover_wal_locked
  reading-Hoare P state body e safe t =
      bind-Hoare P _ (λ _. P) _ _ Safe (quiet-Hoare P Safe safe)
        (λ _. record {
          at = λ w p.
              subst
                (λ o.
                  Post w (λ _. Settled) Safe
                    ((lift o >>= λ found. recover_state cfg found.0 found.1) w))
                (sym (e w.disk p)) (t.at w p);
        })

  empty_state : read_wal_state [] ≡ returned (empty_wal, [])
  unfolding read_wal_state
  empty_state = refl

  -- Recovery settles the disk, or stops with a disk that it can be called on again.
  pub recover-Hoare : Hoare Safe (recover_wal_locked cfg) (λ _. Settled) Safe
  recover-Hoare = record {
    at = λ w s. elim s [
      | inl settled ↦
          (reading-Hoare Settled empty_wal [] (λ d p. ap read_wal_state p.0.text ∙ empty_state)
              (λ d p. inl p) (pure-Hoare _ tt _ _ (λ d p. p))).at
            w settled
      | inr p ↦
          (reading-Hoare Pending committed c.body
              (λ d p. ap (λ (w : Log). read_wal_state w.text) p.logged ∙ c.state) (λ d p. inr p)
              replay-Hoare).at
            w p
    ];
  }

  lose-Settled :
      (l : Loss) (d : Disk (Indexable F))
      → d.wal.text ≡ []
      → New d
      → (text : Bytes) → surviving l d.wal ≡ text
      → (text ≡ []) ⊎ (text ≡ content)
      → Safe (lose l d)
  lose-Settled l d e n text is_it (inl empty) = inl (
    record { text = is_it ∙ empty; saved = inl refl },
    lose-IsNew row ops files rows content l d n,
  )
  lose-Settled l d e n text is_it (inr back) = inr (
      new-IsPending row ops files rows content (lose l d) (ap synced_log (is_it ∙ back))
        (lose-IsNew row ops files rows content l d n))

  surviving-Emptied :
      (l : Loss) (w : Log) → Emptied w → (surviving l w ≡ []) ⊎ (surviving l w ≡ content)
  surviving-Emptied l w e = elim (Bool-cases w.synced) [
    | inl synced ↦ rw synced (inl e.text)
    | inr unsynced ↦ elim (Bool-cases l.back) [
      | inl back ↦
          rw (unsynced, back)
            (elim e.saved [ inl synced ↦ cc (synced, unsynced) | inr saved ↦ inr saved ])
      | inr gone ↦ rw (unsynced, gone) (inl (ap (take l.part) e.text ∙ take-nil l.part))
    ]
  ]

  pub lose-Safe : (l : Loss) (d : Disk (Indexable F)) → Safe d → Safe (lose l d)
  lose-Safe l d (inl (e, n)) =
      lose-Settled l d e.text n (surviving l d.wal) refl (surviving-Emptied l d.wal e)
  lose-Safe l d (inr p) = inr (lose-IsPending row ops files rows content l d p)
