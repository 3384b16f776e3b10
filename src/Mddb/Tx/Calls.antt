-- ===== src/Mddb/Tx/Calls.antt =====
-- Transactions by the calls on them, and the operations that their commit writes to the log.
use agent_task.Prelude.{ℕ, ◌≡◌, ◌⊎◌, inl, inr, refl, ap, ◌∙◌, true, false, List, [], ◌∷◌, ◌++◌, All}
use agent_task.Text.{Bytes, equal}
use agent_task.Mddb.Outcome.{returned}
use agent_task.Mddb.Documents.{Config, marshal_document, Indexable}
use agent_task.Mddb.Wal.{
  WalOp, wal_op_put, wal_op_delete, kind_create, kind_update, kind_delete, check_kind, encode_op,
  encode_body, encode_wal_content, footer,
}
use agent_task.Mddb.Wal.Json.{kind_number}
use agent_task.Mddb.Orders.{Reordered, Reordered-All}
use agent_task.Mddb.World.{World, Ended, stopped, went, Io}
use agent_task.Mddb.Materialize.{content_of, materialize_op, materialize_ops}
use agent_task.Mddb.Effects.{IsSound}
use agent_task.Mddb.Tx.{Tx, create, update, delete}
use agent_task.Mddb.Tx.Buffer.{ops_of}
use agent_task.Mddb.Tx.Buffers.{IsBuffered, IsOpen, create-IsOpen, update-IsOpen, delete-IsOpen}

-- The calls on an open transaction.
pub data Request (D : Type 0) : Type 0 where
  creating : D → Request D
  updating : D → Request D
  deleting : Bytes → Request D

module _ {D F : Type 0} (cfg : Config D F) where
  abbrev call_on : Tx D → Request D → Io (Indexable F) (Tx D)
  call_on tx (creating doc) = create cfg tx doc
  call_on tx (updating doc) = update cfg tx doc
  call_on tx (deleting id) = delete cfg tx id

  -- A call that fails leaves the transaction as it is.
  abbrev left : Tx D → Ended (Indexable F) (Tx D) → Tx D × World (Indexable F)
  left tx (stopped e w) = (tx, w)
  left tx (went tx' w) = (tx', w)

  pub calls : List (Request D) → Tx D → World (Indexable F) → Tx D
  calls [] tx w = tx
  calls (r ∷ rs) tx w = let next = left tx (call_on tx r w) in calls rs next.0 next.1

  call_on-IsOpen :
      (r : Request D) (tx tx' : Tx D) (w w' : World (Indexable F))
      → call_on tx r w ≡ went tx' w'
      → IsOpen cfg tx
      → IsOpen cfg tx'
  call_on-IsOpen (creating doc) tx tx' w w' = create-IsOpen cfg tx tx' doc w w'
  call_on-IsOpen (updating doc) tx tx' w w' = update-IsOpen cfg tx tx' doc w w'
  call_on-IsOpen (deleting id) tx tx' w w' = delete-IsOpen cfg tx tx' id w w'

  left-IsOpen :
      (r : Request D) (tx : Tx D) (w : World (Indexable F)) (e : Ended (Indexable F) (Tx D))
      → call_on tx r w ≡ e
      → IsOpen cfg tx
      → IsOpen cfg (left tx e).0
  left-IsOpen r tx w (stopped x w') h o = o
  left-IsOpen r tx w (went tx' w') h o = call_on-IsOpen r tx tx' w w' h o

  calls-IsOpen :
      (rs : List (Request D)) (tx : Tx D) (w : World (Indexable F))
      → IsOpen cfg tx
      → IsOpen cfg (calls rs tx w)
  unfolding calls
  calls-IsOpen [] tx w o = o
  calls-IsOpen (r ∷ rs) tx w o =
      let next = left tx (call_on tx r w) in
      calls-IsOpen rs next.0 next.1 (left-IsOpen r tx w (call_on tx r w) refl o)

  -- Every document with an id can be written out, as a text that is not empty.
  pub record Marshals : Type 0 where
    pub text : D → Bytes
    pub marshalled :
        (doc : D)
        → equal (cfg.doc_id doc) [] ≡ false
        → marshal_document cfg doc ≡ returned (text doc)
    pub filled : (doc : D) → equal (text doc) [] ≡ false

  -- An operation that the log takes, with a path and content that are accepted.
  pub record IsReady (op : WalOp D) : Type 0 where
    pub sound : IsSound op
    pub kind : check_kind op.op op.kind ≡ returned tt
    pub path : op.path ≡ cfg.rel_path_from_id op.id

  abbrev pub HasIntent : WalOp D → Type 0
  HasIntent op = IsBuffered cfg (op.id, op)

  put_kind :
      (op : Bytes) (kind : ℕ)
      → op ≡ wal_op_put
      → (kind ≡ kind_create) ⊎ (kind ≡ kind_update)
      → check_kind op kind ≡ returned tt
  unfolding check_kind equal
  put_kind op kind e (inl k) = rw (e, k) refl
  put_kind op kind e (inr k) = rw (e, k) refl

  delete_kind :
      (op : Bytes) (kind : ℕ)
      → op ≡ wal_op_delete
      → kind ≡ kind_delete
      → check_kind op kind ≡ returned tt
  unfolding check_kind equal
  delete_kind op kind e k = rw (e, k) refl

  put_word :
      (op : Bytes)
      → op ≡ wal_op_put
      → (equal op wal_op_put ≡ true) × (equal op wal_op_delete ≡ false)
  unfolding equal
  put_word op e = rw e (refl, refl)

  delete_word :
      (op : Bytes)
      → op ≡ wal_op_delete
      → (equal op wal_op_put ≡ false) × (equal op wal_op_delete ≡ true)
  unfolding equal
  delete_word op e = rw e (refl, refl)

  no_content : (content : Bytes) → content ≡ [] → equal content [] ≡ true
  unfolding equal
  no_content content e = rw e refl

  materialize_op-IsReady :
      Marshals
      → (op : WalOp D) → HasIntent op
      → (op' : WalOp D) × (materialize_op cfg op ≡ returned op') × IsReady op'
  unfolding materialize_op
  materialize_op-IsReady m op b = elim b.intent [
    | inl (is_put, kinds, empty, (doc, has, id)) ↦
        let (p, not_delete) = put_word op.op is_put in
        let writes : content_of cfg op op.doc ≡ returned (m.text doc) =
          unfold content_of in
          (ap (content_of cfg op) has ∙ m.marshalled doc (ap (λ i. equal i []) id ∙ b.named)) in
        (
          record op { content = m.text doc },
          rw (p, no_content op.content empty, writes) refl,
          record {
            sound = record { path = b.valid; known = inl (p, not_delete, m.filled doc) };
            kind = put_kind op.op op.kind is_put kinds;
            path = b.path;
          },
        )
    | inr (is_delete, kind, empty) ↦
        let (not_put, p) = delete_word op.op is_delete in
        (
          op,
          rw not_put refl,
          record {
            sound = record { path = b.valid; known = inr (not_put, p) };
            kind = delete_kind op.op op.kind is_delete kind;
            path = b.path;
          },
        )
  ]

  materialize_ops-IsReady :
      Marshals
      → (ops : List (WalOp D)) → All HasIntent ops
      → (ops' : List (WalOp D)) × (materialize_ops cfg ops ≡ returned ops') × All IsReady ops'
  unfolding materialize_ops
  materialize_ops-IsReady m [] bs = ([], refl, tt)
  materialize_ops-IsReady m (op ∷ ops) (b, bs) =
      let (op', e, r) = materialize_op-IsReady m op b in
      let (ops', es, rs) = materialize_ops-IsReady m ops bs in
      (op' ∷ ops', rw (e, es) refl, (r, rs))

  encode_body-IsReady :
      (ops : List (WalOp D))
      → All IsReady ops
      → (body : Bytes) × (encode_body cfg.json ops ≡ returned body)
  unfolding encode_body encode_op
  encode_body-IsReady [] rs = ([], refl)
  encode_body-IsReady (op ∷ ops) (r, rs) =
      let (body, e) = encode_body-IsReady ops rs in
      (
        cfg.json.encode (record {
          op = op.op;
          kind = kind_number op.kind;
          id = op.id;
          path = op.path;
          content = op.content;
        })
            ++ body,
        rw (r.kind, e) refl,
      )

  entries-HasIntent :
      (entries : List (Bytes × WalOp D))
      → All (IsBuffered cfg) entries
      → All HasIntent (ops_of entries)
  entries-HasIntent [] bs = tt
  entries-HasIntent ((k, op) ∷ entries) (b, bs) = (
    record {
      keyed = refl;
      named = b.named;
      path = b.path;
      placed = b.placed;
      valid = b.valid;
      intent = b.intent;
    },
    entries-HasIntent entries bs,
  )

  ready-IsSound : (ops : List (WalOp D)) → All IsReady ops → All IsSound ops
  ready-IsSound [] rs = tt
  ready-IsSound (op ∷ ops) (r, rs) = (r.sound, ready-IsSound ops rs)

  abbrev pub new_tx : Tx D
  new_tx = record { ops = []; closed = false }

  -- Whatever is called on a new transaction, in whatever world, and in whatever order the commit takes its
  -- operations: if every document with an id can be written out, as a text that is not empty, then the
  -- operations can be too, and the log takes all of them. Each has a path that is accepted and the word of a
  -- put or a delete, and a put has content.
  pub calls-IsSound :
      Marshals
      → (rs : List (Request D)) (w : World (Indexable F)) (arranged : List (WalOp D))
      → Reordered (ops_of (calls rs new_tx w).ops) arranged
      → (ops : List (WalOp D)) × (materialize_ops cfg arranged ≡ returned ops)
        × All IsSound ops
        × ((content : Bytes) × (encode_wal_content cfg.json ops ≡ returned content))
  unfolding encode_wal_content
  calls-IsSound m rs w arranged r =
      let open_tx = calls-IsOpen rs new_tx w (record { once = tt; entries = tt }) in
      let intents =
        Reordered-All HasIntent (ops_of (calls rs new_tx w).ops) arranged r
          (entries-HasIntent (calls rs new_tx w).ops open_tx.entries) in
      let (ops, written, ready) = materialize_ops-IsReady m arranged intents in
      let (body, e) = encode_body-IsReady ops ready in
      (ops, written, ready-IsSound ops ready, (body ++ footer body, rw e refl))
