-- ===== src/Mddb/Wal/Encoding.antt =====
-- pkg/mddb/wal.go: the log of the operations that a transaction writes, and its decoding.
use agent_task.Prelude.{
  ℕ, suc, ◌^◌, ◌<◌, ◌≡◌, ◌⊎◌, inl, inr, refl, sym, ap, ◌∙◌, true, false, ◌&&◌, List, [], ◌∷◌, ◌++◌,
  ◌==◌, length, length-append, All, All-append, arith,
}
use agent_task.Text.{Bytes, codes, equal}
use agent_task.Mddb.Outcome.{returned, failed, invalid}
use agent_task.Mddb.Wal.{
  WalOp, committed, wal_op_put, wal_op_delete, decode_kind, check_kind, footer, encode_op,
  encode_body, encode_wal_content, decode_op, decode_loop, decode_wal_ops, read_wal_state,
}
use agent_task.Mddb.Wal.Footer.{read_wal_state-footer}
use agent_task.Mddb.Wal.Json.{Object, kind_number, eof, found, JsonCodec, IsText, IsJson}

-- An operation that a transaction puts into the log.
pub record IsWritable {ℓ} {D : Type ℓ} (json : JsonCodec) (op : WalOp D) : Type ℓ where
  pub known : (op.op ≡ wal_op_put) ⊎ (op.op ≡ wal_op_delete)
  pub kind : check_kind op.op op.kind ≡ returned tt
  pub named : equal op.id [] ≡ false
  pub placed : equal op.path [] ≡ false
  pub filled : (equal op.op wal_op_put && equal op.content []) ≡ false
  pub id_text : json.valid_text op.id ≡ true
  pub path_text : json.valid_text op.path ≡ true
  pub content_text : json.valid_text op.content ≡ true

module _ (json : JsonCodec) (law : IsJson json) where
  op_text : (w : Bytes) → (w ≡ wal_op_put) ⊎ (w ≡ wal_op_delete) → json.valid_text w ≡ true
  op_text w (inl e) = rw e (law.valid_text-ascii (codes "put") (refl, (refl, (refl, tt))))
  op_text w (inr e) =
      rw e
        (law.valid_text-ascii (codes "delete") (refl, (refl, (refl, (refl, (refl, (refl, tt)))))))

  encode-ne-nil : (o : Object) → IsText json o → json.encode o ≡ [] → ⊥
  encode-ne-nil o t e =
      let back : json.next (json.encode o ++ []) ≡ found o [] = law.next-encode o [] t in
      let nothing : json.next ([] ++ []) ≡ eof = law.next-nil in
      cc (sym nothing ∙ ap (λ b. json.next (b ++ [])) (sym e) ∙ back)

  encode-length : (o : Object) → IsText json o → 0 < length (json.encode o)
  encode-length o t = positive (json.encode o) (encode-ne-nil o t)
    where
      positive : (b : Bytes) → (b ≡ [] → ⊥) → 0 < length b
      positive [] h = absurd (h refl)
      positive (x ∷ b) h = omega arith

module _ {ℓ} {D : Type ℓ} (json : JsonCodec) (law : IsJson json) where
  -- An operation is written as an object with the number of its kind.
  encode_op-returned :
      (op : WalOp D)
      → IsWritable json op
      → (o : Object) × (encode_op json op ≡ returned (json.encode o))
        × IsText json o
        × (o.kind ≡ kind_number op.kind)
  unfolding encode_op
  encode_op-returned op w = (
    record {
      op = op.op;
      kind = kind_number op.kind;
      id = op.id;
      path = op.path;
      content = op.content;
    },
    rw w.kind refl,
    record {
      op = op_text json law op.op w.known;
      kind = tt;
      id = w.id_text;
      path = w.path_text;
      content = w.content_text;
    },
    refl,
  )

  pub encode_body-returned :
      (ops : List (WalOp D))
      → All (IsWritable json) ops
      → (body : Bytes) × (encode_body json ops ≡ returned body) × All (λ b. (b == 0) ≡ false) body
  unfolding encode_body
  encode_body-returned [] all = ([], refl, tt)
  encode_body-returned (op ∷ ops) (w, ws) =
      let (o, e, t, _) = encode_op-returned op w in
      let (rest, es, zs) = encode_body-returned ops ws in
      (
        json.encode o ++ rest,
        rw (e, es) refl,
        All-append (λ b. (b == 0) ≡ false) (json.encode o) rest (law.no_zero o) zs,
      )

  decode_loop-number :
      (o : Object) (rest : Bytes) (k fuel : ℕ)
      → IsText json o
      → o.kind ≡ kind_number k
      → decode_loop {D = D} json (suc fuel) (json.encode o ++ rest) ≡ failed invalid
  unfolding decode_loop decode_op decode_kind
  decode_loop-number o rest k fuel t e =
      rw (law.next-encode o rest t, decode_loop, decode_op, e) refl

  -- The log that is written for at least one operation, shorter than 2 to the 63, is read as a committed
  -- log, and decoding its operations fails.
  pub decode_wal_ops-encode_wal_content :
      (op : WalOp D) (ops : List (WalOp D)) (file : Bytes)
      → All (IsWritable json) (op ∷ ops)
      → encode_wal_content json (op ∷ ops) ≡ returned file
      → length file < 2 ^ 63
      → (body : Bytes) × (read_wal_state file ≡ returned (committed, body))
        × (decode_wal_ops {D = D} json body ≡ failed invalid)
  unfolding encode_wal_content encode_body decode_wal_ops
  decode_wal_ops-encode_wal_content op ops file (w, ws) e h =
      let (o, one, t, kind) = encode_op-returned op w in
      let (rest, es, _) = encode_body-returned ops ws in
      let body = json.encode o ++ rest in
      let is_it : body ++ footer body ≡ file = cc (rw (one, es) at e) in
      let short : length body < 2 ^ 63 =
        omega (arith, ap (length {A = ℕ}) is_it, length-append body (footer body), h) in
      (
        body,
        ap read_wal_state (sym is_it) ∙ read_wal_state-footer body short,
        decode_loop-number o rest op.kind (length body) t kind,
      )
