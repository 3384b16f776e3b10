-- ===== src/Mddb/Recovery/Committing.antt =====
-- What a commit leaves when it returns, and when it stops at an error or a crash.
use agent_task.Prelude.{
  take_all, ℕ, zero, suc, ◌≡◌, ◌⊎◌, inl, inr, refl, sym, ap, ◌∙◌, false, Option, List, [], ◌∷◌,
  ◌++◌, append-nil, Bool-cases, length, length-append, take, drop, ltb, subst, arith,
}
use agent_task.Text.{Bytes}
use agent_task.Mddb.Outcome.{incomplete}
use agent_task.Mddb.Documents.{Config, Indexable}
use agent_task.Mddb.Wal.{WalOp, encode_wal_content, footer}
use agent_task.Mddb.Wal.Torn.{IsDropped, torn_write}
use agent_task.Mddb.Wal.Encoding.{encode_body-returned}
use agent_task.Mddb.World.{
  Log, Loss, Disk, lose, surviving, rewritten, synced_log, ◌>>◌, on_error, ignore, quiet,
  truncate_wal, write_at_start, sync_wal, overwrite,
}
use agent_task.Mddb.World.Hoare.{
  Hoare, lift-Hoare, bind-Hoare, step-Hoare, call-Hoare, quiet-Hoare, wrap-Hoare, on_error-Hoare,
  ignore-Hoare, fact-Hoare, consequence-Hoare, relax-Hoare,
}
use agent_task.Mddb.Commit.{write_wal, commit_ops}
use agent_task.Mddb.Recovery.{
  IsCommittable, IsOld, IsNew, IsPending, old-IsPending, lose-IsOld, lose-IsNew, lose-IsPending,
}
use agent_task.Mddb.Recovery.Replaying.{HasFiles, apply-Hoare, index-Hoare}

take_beyond : (n : ℕ) (xs : Bytes) → ltb n (length xs) ≡ false → take n xs ≡ xs
take_beyond zero [] h = refl
take_beyond zero (x ∷ xs) h = absurd (ground arith)
take_beyond (suc n) [] h = refl
take_beyond (suc n) (x ∷ xs) h = ap (◌∷◌ x) (take_beyond n xs (ground arith))

take-nil : (n : ℕ) → take {A = ℕ} n [] ≡ []
take-nil zero = refl
take-nil (suc n) = refl

-- A prefix of a prefix is a prefix.
take-take : (m n : ℕ) (xs : Bytes) → (k : ℕ) × (take m (take n xs) ≡ take k xs)
take-take zero n xs = (zero, refl)
take-take (suc m) zero xs = (zero, refl)
take-take (suc m) (suc n) [] = (zero, refl)
take-take (suc m) (suc n) (x ∷ xs) = let (k, e) = take-take m n xs in (suc k, ap (◌∷◌ x) e)

overwrite-nil : (content : Bytes) → overwrite content [] ≡ content
overwrite-nil content = ap (◌++◌ content) (nothing (length content)) ∙ append-nil content
  where
    nothing : (n : ℕ) → drop {A = ℕ} n [] ≡ []
    nothing zero = refl
    nothing (suc n) = refl

module _ {D F : Type 0} (cfg : Config D F) (row : Bytes → Bytes → Bytes → Indexable F)
    (ops : List (WalOp D)) (files : Bytes → Option Bytes) (rows : Bytes → Option (Indexable F))
    (content before : Bytes) (c : IsCommittable cfg row ops files content) where
  abbrev pub Old : Disk (Indexable F) → Type 0
  Old = IsOld row ops files rows content

  abbrev pub New : Disk (Indexable F) → Type 0
  New = IsNew row ops files rows content

  abbrev pub Pending : Disk (Indexable F) → Type 0
  Pending = IsPending row ops files rows content

  -- The log is written in part and not synced; `before` is what was safe of it at the start.
  pub record Torn (w : Log) : Type 0 where
    pub size : ℕ
    pub text : w.text ≡ take size content
    pub saved : w.saved ≡ before

  -- The whole log is safe, and truncated or not.
  abbrev pub Ends : Log → Type 0
  Ends w = (w ≡ synced_log content) ⊎ (w ≡ rewritten [] (synced_log content))

  abbrev pub Done : Disk (Indexable F) → Type 0
  Done d = Ends d.wal × New d

  abbrev pub Safe : Disk (Indexable F) → Type 0
  Safe d = (Torn d.wal × Old d) ⊎ (Pending d ⊎ Done d)

  -- What a committed transaction leaves when the power goes: an empty log or the whole one.
  abbrev pub IsDone : Disk (Indexable F) → Type 0
  IsDone d = ((d.wal.text ≡ []) ⊎ (d.wal.text ≡ content)) × New d

  -- A log that holds nothing to replay, or what was safe of it at the start, or all of the transaction.
  abbrev pub Unsure : Bytes → Type 0
  Unsure text = IsDropped text ⊎ ((text ≡ before) ⊎ (text ≡ content))

  -- As much of the log as was written.
  part-Unsure : (n : ℕ) → Unsure (take n content)
  unfolding encode_wal_content
  part-Unsure n =
      let (body, encoded, zeros) = encode_body-returned cfg.json c.json ops c.writable in
      let parts : body ++ footer body ≡ content = cc (rw encoded at (c.encoded)) in
      let size : length (body ++ footer body) ≡ length content = ap (length {A = ℕ}) parts in
      elim (Bool-cases (ltb n (length content))) [
        | inl less ↦ inl (
            subst (λ l. IsDropped (take n l)) parts
              (torn_write body n zeros
                (omega (arith, size, length-append body (footer body), c.short))
                (ground (arith, size))))
        | inr all ↦ inr (inr (take_beyond n content all))
      ]

  with_wal : (d : Disk (Indexable F)) (wal : Log) → Old d → Old (record d { wal = wal })
  with_wal d wal o = record {
    same_files = o.same_files;
    same_saved = o.same_saved;
    same_rows = o.same_rows;
  }

  -- Before the log is truncated, behind it, and when it is written.
  abbrev pub Begun : Disk (Indexable F) → Type 0
  Begun d = Torn d.wal × Old d

  abbrev Fresh : Disk (Indexable F) → Type 0
  Fresh d = ((d.wal.text ≡ []) × (d.wal.saved ≡ before)) × Old d

  abbrev Written : Disk (Indexable F) → Type 0
  Written d = ((d.wal.text ≡ content) × (d.wal.saved ≡ before)) × Old d

  abbrev Logged : Disk (Indexable F) → Type 0
  Logged d = (d.wal ≡ synced_log content) × Old d

  Fresh-Begun : (d : Disk (Indexable F)) → Fresh d → Begun d
  Fresh-Begun d ((e, s), o) = (record { size = 0; text = e; saved = s }, o)

  Written-Begun : (d : Disk (Indexable F)) → Written d → Begun d
  Written-Begun d ((e, s), o) = (
    record {
      size = length content;
      text = e ∙ sym (take_all (length content) content refl);
      saved = s;
    },
    o,
  )

  truncate-Hoare : Hoare Begun truncate_wal (λ _. Fresh) Begun
  truncate-Hoare =
      step-Hoare Begun _ Fresh Begun (λ d b. b)
        (λ d (t, o). ((refl, t.saved), with_wal d (rewritten [] d.wal) o))

  -- The write of the log, which is empty, and the cleaning up behind an error of it.
  write-Hoare : Hoare Fresh (on_error (write_at_start content) truncate_wal) (λ _. Written) Begun
  write-Hoare =
      on_error-Hoare Fresh _ _ _ Begun Begun
        (call-Hoare Fresh _ Written Begun Fresh-Begun
          (λ d ((e, s), o). (
            (ap (overwrite content) e ∙ overwrite-nil content, s),
            with_wal d (rewritten (overwrite content d.wal.text) d.wal) o,
          ))
          part part)
        (consequence-Hoare Begun Begun _ _ (λ _. Fresh) _ Begun truncate-Hoare (λ d b. b)
          (λ _ d f. Fresh-Begun d f) (λ d b. b))
    where
      part :
          (d : Disk (Indexable F)) (n : ℕ)
          → Fresh d
          → Begun (record d { wal = rewritten (overwrite (take n content) d.wal.text) d.wal })
      part d n ((e, s), o) = (
        record {
          size = n;
          text = ap (overwrite (take n content)) e ∙ overwrite-nil (take n content);
          saved = s;
        },
        with_wal d (rewritten (overwrite (take n content) d.wal.text) d.wal) o,
      )

  sync-Hoare : Hoare Written sync_wal (λ _. Logged) Begun
  sync-Hoare =
      step-Hoare Written _ Logged Begun Written-Begun
        (λ d ((e, s), o). (ap synced_log e, with_wal d (synced_log d.wal.text) o))

  write_wal-Hoare : Hoare Begun (write_wal cfg ops) (λ _. Logged) Begun
  unfolding write_wal
  write_wal-Hoare =
      bind-Hoare Begun _ (λ t d. (t ≡ content) × Begun d) _ _ Begun
        (lift-Hoare _ _ content _ _ c.encoded (λ d p. (refl, p)))
        (λ t. fact-Hoare (t ≡ content) Begun _ _ Begun (λ e.
          subst
            (λ t.
              Hoare Begun
                (truncate_wal >> (quiet >> (on_error (write_at_start t) truncate_wal >> sync_wal)))
                (λ _. Logged) Begun)
            (sym e)
            (bind-Hoare Begun _ (λ _. Fresh) _ _ Begun truncate-Hoare
              (λ _.
                bind-Hoare Fresh _ (λ _. Fresh) _ _ Begun (quiet-Hoare Fresh Begun Fresh-Begun)
                  (λ _.
                    bind-Hoare Fresh _ (λ _. Written) _ _ Begun write-Hoare (λ _. sync-Hoare))))))

  finish-Hoare :
      Hoare (λ d. (d.wal ≡ synced_log content) × New d) (ignore truncate_wal) (λ _. Done) Done
  finish-Hoare = ignore-Hoare _ truncate_wal Done (
      step-Hoare _ _ Done Done (λ d (w, n). (inl w, n))
        (λ d (w, n). (
          inr (ap (rewritten []) w),
          record { new_files = n.new_files; new_saved = n.new_saved; new_rows = n.new_rows },
        )))

  pub commit-Hoare : Hoare Begun (commit_ops cfg ops) (λ _. Done) Safe
  unfolding commit_ops
  commit-Hoare =
      bind-Hoare Begun _ (λ _. Logged) _ _ Safe
        (relax-Hoare _ _ _ Begun Safe (λ d b. inl b) write_wal-Hoare)
        (λ _.
          bind-Hoare Logged _ (λ _. HasFiles cfg row ops files rows content) _ _ Safe
            (wrap-Hoare _ incomplete _ _ _ (
              consequence-Hoare Logged _ _ _ _ _ _
                (apply-Hoare cfg row ops files rows content c.sound)
                (λ d (w, o). old-IsPending row ops files rows content d w o) (λ _ d h. h)
                (λ d p. inr (inl p))))
            (λ _.
              bind-Hoare _ _ (λ _ d. (d.wal ≡ synced_log content) × New d) _ _ Safe
                (wrap-Hoare _ incomplete _ _ _ (
                  relax-Hoare _ _ _ _ Safe (λ d p. inr (inl p))
                    (index-Hoare cfg row ops files rows content c.sound c.indexed)))
                (λ _. relax-Hoare _ _ _ Done Safe (λ d n. inr (inr n)) finish-Hoare)))

  -- What survives of a log that is written in part.
  surviving-Unsure : (l : Loss) (w : Log) → Torn w → Unsure (surviving l w)
  surviving-Unsure l w t = elim (Bool-cases w.synced) [
    | inl synced ↦ rw synced (subst Unsure (sym t.text) (part-Unsure t.size))
    | inr unsynced ↦ elim (Bool-cases l.back) [
      | inl back ↦ rw (unsynced, back) (inr (inl t.saved))
      | inr gone ↦
          let (k, e) = take-take l.part t.size content in
          rw (unsynced, gone) (subst Unsure (sym (ap (take l.part) t.text ∙ e)) (part-Unsure k))
    ]
  ]

  -- What is left of a disk when the power goes.
  abbrev pub IsSafe : Disk (Indexable F) → Type 0
  IsSafe d = (Unsure d.wal.text × Old d) ⊎ (Pending d ⊎ IsDone d)

  surviving-Ends : (l : Loss) (w : Log) → Ends w → (surviving l w ≡ []) ⊎ (surviving l w ≡ content)
  surviving-Ends l w (inl whole) = inr (ap (surviving l) whole)
  surviving-Ends l w (inr truncated) = elim (Bool-cases l.back) [
    | inl back ↦ inr (ap (surviving l) truncated ∙ rw back refl)
    | inr gone ↦ inl (ap (surviving l) truncated ∙ rw gone (take-nil l.part))
  ]

  pub lose-Done : (l : Loss) (d : Disk (Indexable F)) → Done d → IsDone (lose l d)
  lose-Done l d (w, n) = (surviving-Ends l d.wal w, lose-IsNew row ops files rows content l d n)

  pub lose-Safe : (l : Loss) (d : Disk (Indexable F)) → Safe d → IsSafe (lose l d)
  lose-Safe l d (inl (t, o)) =
      inl (surviving-Unsure l d.wal t, lose-IsOld row ops files rows content l d o)
  lose-Safe l d (inr (inl p)) = inr (inl (lose-IsPending row ops files rows content l d p))
  lose-Safe l d (inr (inr n)) = inr (inr (lose-Done l d n))
