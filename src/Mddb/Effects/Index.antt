-- ===== src/Mddb/Effects/Index.antt =====
-- `updateSqliteIndexFromOps` makes the rows that the operations are meant to make, or leaves the old ones.
use agent_task.Prelude.{
  ℕ, ◌≡◌, inl, inr, refl, sym, ap, ◌∙◌, true, false, Option, none, some, List, [], ◌∷◌, ◌++◌,
  append_assoc, append-nil, if◌then◌else◌, Bool-cases, length, All, subst,
}
use agent_task.Text.{Bytes, equal}
use agent_task.Mddb.Outcome.{returned}
use agent_task.Mddb.Documents.{Config, Indexable, parse_indexable}
use agent_task.Mddb.Wal.{WalOp, wal_op_delete, kind_delete}
use agent_task.Mddb.Writes.{
  write_all, write_all-append, write_all-Heals, touched_self, write_all_part, Heals, Heals-refl,
}
use agent_task.Mddb.World.{Log, Disk, ◌>>=◌, call, step, stat, size_of, update}
use agent_task.Mddb.World.Hoare.{
  Hoare, Post, pure-Hoare, lift-Hoare, bind-Hoare, step-Hoare, quiet-Hoare, fact-Hoare, relax-Hoare,
}
use agent_task.Mddb.Apply.{
  Rows, Staged, stage_change, stage_op, stage, insert_rows, update_sqlite_index_from_ops,
}
use agent_task.Mddb.Effects.{row_deletes, puts_of, put_writes, row_writes, IsSound}

module _ {D F : Type 0} (cfg : Config D F) (row_of : WalOp D → Indexable F)
    (files : Bytes → Option Bytes) where
  -- The document of an operation can be put into the index: it parses, and the callbacks return.
  pub record IsIndexed (op : WalOp D) : Type 0 where
    pub removed : equal op.op wal_op_delete ≡ true → cfg.after kind_delete op.id ≡ returned tt
    pub put :
        equal op.op wal_op_delete ≡ false
        → (text : Bytes) × (files op.path ≡ some text)
          × (parse_indexable cfg op.path op.content (length text) op.id ≡ returned (row_of op))
          × (cfg.after op.kind (row_of op).id ≡ returned tt)

  abbrev staged_one : WalOp D → Staged F → Staged F
  staged_one op s =
      if equal op.op wal_op_delete
      then record s { rows = update s.rows op.id none }
      else record s { puts = s.puts ++ (op.kind, row_of op) ∷ [] }

  staged : List (WalOp D) → Staged F → Staged F
  staged [] s = s
  staged (op ∷ ops) s = staged ops (staged_one op s)

  rows-staged_one :
      (op : WalOp D) (ops : List (WalOp D)) (s : Staged F)
      → write_all (row_deletes row_of ops) (staged_one op s).rows
        ≡ write_all (row_deletes row_of (op ∷ ops)) s.rows
  unfolding write_all
  rows-staged_one op ops s = elim (Bool-cases (equal op.op wal_op_delete)) [
    | inl e ↦ rw e refl
    | inr e ↦ rw e refl
  ]

  rows-staged :
      (ops : List (WalOp D)) (s : Staged F)
      → (staged ops s).rows ≡ write_all (row_deletes row_of ops) s.rows
  unfolding staged write_all
  rows-staged [] s = refl
  rows-staged (op ∷ ops) s = rows-staged ops (staged_one op s) ∙ rows-staged_one op ops s

  puts-staged_one :
      (op : WalOp D) (ops : List (WalOp D)) (s : Staged F)
      → (staged_one op s).puts ++ puts_of row_of ops ≡ s.puts ++ puts_of row_of (op ∷ ops)
  puts-staged_one op ops s = elim (Bool-cases (equal op.op wal_op_delete)) [
    | inl e ↦ rw e refl
    | inr e ↦ rw e (append_assoc s.puts ((op.kind, row_of op) ∷ []) (puts_of row_of ops))
  ]

  puts-staged :
      (ops : List (WalOp D)) (s : Staged F) → (staged ops s).puts ≡ s.puts ++ puts_of row_of ops
  unfolding staged
  puts-staged [] s = sym (append-nil s.puts)
  puts-staged (op ∷ ops) s = puts-staged ops (staged_one op s) ∙ puts-staged_one op ops s

  module _ (J : Disk (Indexable F) → Type 0)
      (sees : (d : Disk (Indexable F)) → J d → (p : Bytes) → d.files p ≡ files p) where
    stat-Hoare :
        (path text : Bytes)
        → files path ≡ some text
        → Hoare J (stat path) (λ n d. (n ≡ length text) × J d) J
    unfolding stat
    stat-Hoare path text found =
        bind-Hoare J _ (λ _. J) _ _ J (quiet-Hoare J J (λ d j. j))
          (λ _. record {
            at = λ w j.
                subst (λ o. Post w (λ n d. (n ≡ length text) × J d) J (size_of o w))
                  (sym (sees w.disk j path ∙ found)) ((refl, j), λ c. c);
          })

    stage_change-Hoare :
        (op : WalOp D) (s : Staged F)
        → IsSound op
        → IsIndexed op
        → Hoare J (stage_change cfg op s) (λ t d. (t ≡ staged_one op s) × J d) J
    unfolding stage_change
    stage_change-Hoare op s sound i = elim sound.known [
      | inr (not_put, is_delete) ↦ rw is_delete (
          bind-Hoare J _ (λ _. J) _ _ J (quiet-Hoare J J (λ d j. j))
            (λ _.
              bind-Hoare J _ (λ _. J) _ _ J (lift-Hoare _ _ tt _ _ (i.removed is_delete) (λ d j. j))
                (λ _. pure-Hoare J _ _ _ (λ d j. (refl, j)))))
      | inl (is_put, not_delete, filled) ↦
          let (text, found, parsed, _) = i.put not_delete in
          rw (not_delete, is_put, filled)
            (bind-Hoare J _ (λ _. J) _ _ J (lift-Hoare _ _ tt _ _ refl (λ d j. j))
              (λ _.
                bind-Hoare J _ (λ n d. (n ≡ length text) × J d) _ _ J
                  (stat-Hoare op.path text found)
                  (λ size. fact-Hoare (size ≡ length text) J _ _ J (λ e.
                    bind-Hoare J _ (λ row d. (row ≡ row_of op) × J d) _ _ J
                      (lift-Hoare _ _ (row_of op) _ _
                        (ap (λ n. parse_indexable cfg op.path op.content n op.id) e ∙ parsed)
                        (λ d j. (refl, j)))
                      (λ row. fact-Hoare (row ≡ row_of op) J _ _ J (λ is_it.
                        pure-Hoare J _ _ _ (λ d j. (
                          ap (λ r. record s { puts = s.puts ++ (op.kind, r) ∷ [] }) is_it,
                          j,
                        ))))))))
    ]

    stage-Hoare :
        (ops : List (WalOp D)) (s : Staged F)
        → All IsSound ops
        → All IsIndexed ops
        → Hoare J (stage cfg ops s) (λ t d. (t ≡ staged ops s) × J d) J
    unfolding stage stage_op staged
    stage-Hoare [] s sounds is = pure-Hoare J s _ _ (λ d j. (refl, j))
    stage-Hoare (op ∷ ops) s (sound, sounds) (i, is) =
        bind-Hoare J _ (λ t d. (t ≡ staged_one op s) × J d) _ _ J
          (bind-Hoare J _ (λ _. J) _ _ J (lift-Hoare _ _ tt _ _ sound.path (λ d j. j))
            (λ _.
              bind-Hoare J _ (λ _. J) _ _ J (quiet-Hoare J J (λ d j. j))
                (λ _. stage_change-Hoare op s sound i)))
          (λ t. fact-Hoare (t ≡ staged_one op s) J _ _ J (λ e.
            subst
              (λ t. Hoare J (stage cfg ops t) (λ u d. (u ≡ staged ops (staged_one op s)) × J d) J)
              (sym e) (stage-Hoare ops (staged_one op s) sounds is)))

    insert_rows-Hoare :
        (puts : List (ℕ × Indexable F)) (rows : Rows F)
        → All (λ (p : ℕ × Indexable F). cfg.after p.0 p.1.id ≡ returned tt) puts
        → Hoare J
            (insert_rows cfg puts rows)
            (λ r d. (r ≡ write_all (put_writes puts) rows) × J d)
            J
    unfolding insert_rows write_all
    insert_rows-Hoare [] rows a = pure-Hoare J rows _ _ (λ d j. (refl, j))
    insert_rows-Hoare ((kind, row) ∷ puts) rows (ok, a) =
        bind-Hoare J _ (λ _. J) _ _ J (quiet-Hoare J J (λ d j. j))
          (λ _.
            bind-Hoare J _ (λ _. J) _ _ J (lift-Hoare _ _ tt _ _ ok (λ d j. j))
              (λ _. insert_rows-Hoare puts (update rows row.id (some row)) a))

  puts_of-after :
      (ops : List (WalOp D))
      → All IsIndexed ops
      → All (λ (p : ℕ × Indexable F). cfg.after p.0 p.1.id ≡ returned tt) (puts_of row_of ops)
  puts_of-after [] is = tt
  puts_of-after (op ∷ ops) (i, is) = elim (Bool-cases (equal op.op wal_op_delete)) [
    | inl e ↦ rw e (puts_of-after ops is)
    | inr e ↦ let (_, _, _, ok) = i.put e in rw e (ok, puts_of-after ops is)
  ]

  module _ (W : Log → Type 0) (ops : List (WalOp D)) (old : Rows F) where
    -- Before the transaction of the index, and after it.
    pub record Indexing (d : Disk (Indexable F)) : Type 0 where
      pub wal : W d.wal
      pub made : (p : Bytes) → d.files p ≡ files p
      pub made_saved : (p : Bytes) → d.saved_files p ≡ files p
      pub heals : Heals (row_writes row_of ops) old d.rows

    pub record Indexed (d : Disk (Indexable F)) : Type 0 where
      pub indexing : Indexing d
      pub rows : (id : Bytes) → d.rows id ≡ write_all (row_writes row_of ops) old id

    indexed :
        (rows : Rows F) (s : Staged F) (r : Rows F) (d : Disk (Indexable F))
        → s ≡ staged ops (record { rows = rows; puts = [] })
        → r ≡ write_all (put_writes s.puts) s.rows
        → Heals (row_writes row_of ops) old rows
        → Indexing d
        → Indexed (record d { rows = r })
    indexed rows s r d es er h j =
        let begin : Staged F = record { rows = rows; puts = [] } in
        let puts : s.puts ≡ puts_of row_of ops =
          ap (λ (t : Staged F). t.puts) es ∙ puts-staged ops begin in
        let deleted : s.rows ≡ write_all (row_deletes row_of ops) rows =
          ap (λ (t : Staged F). t.rows) es ∙ rows-staged ops begin in
        let all : r ≡ write_all (row_writes row_of ops) rows =
          er
          ∙ ap (λ l. write_all (put_writes l) s.rows) puts
          ∙ ap (write_all (put_writes (puts_of row_of ops))) deleted
          ∙ sym
              (write_all-append (row_deletes row_of ops) (put_writes (puts_of row_of ops)) rows) in
        let same : (id : Bytes) → r id ≡ write_all (row_writes row_of ops) old id = λ id.
          ap (λ (f : Rows F). f id) all ∙ write_all-Heals (row_writes row_of ops) old rows h id in
        let heals : Heals (row_writes row_of ops) old r = λ id u.
          same id
          ∙ write_all_part (row_writes row_of ops) (row_writes row_of ops) old old
              (touched_self (row_writes row_of ops)) (Heals-refl (row_writes row_of ops) old) id
              u in
        record {
          indexing = record {
            wal = j.wal;
            made = j.made;
            made_saved = j.made_saved;
            heals = heals;
          };
          rows = same;
        }

    -- With these rows as they are, until the end.
    abbrev Holding : Rows F → Disk (Indexable F) → Type 0
    Holding rows d = Indexing d × (d.rows ≡ rows)

    pub update_sqlite_index_from_ops-Hoare :
        All IsSound ops
        → All IsIndexed ops
        → Hoare Indexing (update_sqlite_index_from_ops cfg ops) (λ _. Indexed) Indexing
    unfolding update_sqlite_index_from_ops
    update_sqlite_index_from_ops-Hoare sounds is =
        bind-Hoare Indexing _ (λ _. Indexing) _ _ Indexing
          (quiet-Hoare Indexing Indexing (λ d j. j))
          (λ _. record { at = λ w j. (inside w.disk.rows j.heals).at w (j, refl) })
      where
        inside :
            (rows : Rows F)
            → Heals (row_writes row_of ops) old rows
            → Hoare
                (Holding rows)
                (stage cfg ops (record { rows = rows; puts = [] }) >>= λ s.
                  insert_rows cfg s.puts s.rows >>= λ r. call (step (λ d. record d { rows = r })))
                (λ _. Indexed)
                Indexing
        inside rows h =
            bind-Hoare (Holding rows) _
              (λ s d. (s ≡ staged ops (record { rows = rows; puts = [] })) × Holding rows d) _ _
              Indexing
              (relax-Hoare _ _ _ (Holding rows) Indexing (λ d j. j.0)
                (stage-Hoare (Holding rows) (λ d j. j.0.made) ops
                  (record { rows = rows; puts = [] }) sounds is))
              (λ s. fact-Hoare _ (Holding rows) _ _ Indexing (λ es.
                bind-Hoare (Holding rows) _
                  (λ r d. (r ≡ write_all (put_writes s.puts) s.rows) × Holding rows d) _ _ Indexing
                  (relax-Hoare _ _ _ (Holding rows) Indexing (λ d j. j.0)
                    (insert_rows-Hoare (Holding rows) (λ d j. j.0.made) s.puts s.rows
                      (subst
                        (λ l. All (λ (p : ℕ × Indexable F). cfg.after p.0 p.1.id ≡ returned tt) l)
                        (sym (
                          ap (λ (t : Staged F). t.puts) es
                          ∙ puts-staged ops (record { rows = rows; puts = [] })))
                        (puts_of-after ops is))))
                  (λ r. fact-Hoare _ (Holding rows) _ _ Indexing (λ er.
                    step-Hoare (Holding rows) _ Indexed Indexing (λ d j. j.0)
                      (λ d j. indexed rows s r d es er h j.0)))))
