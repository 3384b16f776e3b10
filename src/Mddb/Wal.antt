-- ===== src/Mddb/Wal.antt =====
-- pkg/mddb/wal.go: the operations of the write-ahead log, `encodeWalContent`, `decodeWalOps` and
-- `readWalState`. JSON enters as the encoding of the five fields that an operation has.
pub mod Json
pub mod Footer
pub mod Torn
pub mod Encoding
use agent_task.Prelude.{
  ℕ, zero, suc, ◌+◌, ◌-◌, ◌*◌, ◌^◌, Bool, true, false, not, ◌&&◌, ◌||◌, Option, none, some, List,
  [], ◌∷◌, ◌++◌, ltb, leb, ◌==◌, if◌then◌else◌, take, drop, length,
}
use agent_task.Text.{Bytes, codes, equal, put_le, get_le}
use agent_task.Mddb.Words.{inverse, checksum}
use agent_task.Mddb.Outcome.{
  Failure, Outcome, returned, failed, ◌>>=◌, ◌>>◌, fail_if, corrupt, invalid,
}
use agent_task.Mddb.Wal.Json.{
  Kind, no_kind, kind_number, kind_text, Object, Next, eof, malformed, found, JsonCodec,
}

abbrev pub wal_magic : Bytes
wal_magic = codes "MDDB0001"

abbrev pub wal_footer_size : ℕ
wal_footer_size = 32

abbrev pub wal_op_put : Bytes
wal_op_put = codes "put"

abbrev pub wal_op_delete : Bytes
wal_op_delete = codes "delete"

-- The values of `walKind`; 0 stands for none.
abbrev pub kind_create : ℕ
kind_create = 1

abbrev pub kind_update : ℕ
kind_update = 2

abbrev pub kind_delete : ℕ
kind_delete = 3

-- `walOp`: the document is there while a transaction runs, and is not written to the log.
pub record WalOp {ℓ} (D : Type ℓ) : Type ℓ where
  pub op : Bytes
  pub kind : ℕ
  pub id : Bytes
  pub path : Bytes
  pub content : Bytes
  pub doc : Option D

pub data WalState : Type 0 where
  empty_wal uncommitted committed : WalState

-- `walKind.UnmarshalText`.
unfoldable pub unmarshal_kind : Bytes → Outcome ℕ
unmarshal_kind text =
    if equal text []
    then returned 0
    else if equal text (codes "create")
    then returned kind_create
    else if equal text (codes "update")
    then returned kind_update
    else if equal text (codes "delete")
    then returned kind_delete
    else failed invalid

-- `Decoder.Decode` of the field "kind".
unfoldable pub decode_kind : Kind → Outcome ℕ
unfolding unmarshal_kind
decode_kind no_kind = returned 0
decode_kind (kind_number n) = failed invalid
decode_kind (kind_text t) = unmarshal_kind t

-- The checks of a kind that the encoder and the decoder share.
unfoldable pub check_kind : Bytes → ℕ → Outcome (Unit {0})
check_kind op kind = do
  fail_if (kind == 0) invalid
  fail_if (not (kind == kind_create || kind == kind_update || kind == kind_delete)) invalid
  fail_if (equal op wal_op_put && kind == kind_delete) invalid
  fail_if (equal op wal_op_delete && not (kind == kind_delete)) invalid

-- The last 32 bytes of the log.
unfoldable pub footer : Bytes → Bytes
footer body =
    wal_magic
    ++ (put_le 8 (length body)
        ++ (put_le 8 (inverse 64 (length body))
            ++ (put_le 4 (checksum body) ++ put_le 4 (inverse 32 (checksum body)))))

module _ {ℓ} {D : Type ℓ} (json : JsonCodec) where
  unfoldable pub encode_op : WalOp D → Outcome Bytes
  encode_op op = do
    check_kind op.op op.kind
    returned (
        json.encode (record {
          op = op.op;
          kind = kind_number op.kind;
          id = op.id;
          path = op.path;
          content = op.content;
        }))

  unfoldable pub encode_body : List (WalOp D) → Outcome Bytes
  unfolding encode_op
  encode_body [] = returned []
  encode_body (op ∷ ops) = do line ← encode_op op; rest ← encode_body ops; returned (line ++ rest)

  -- `encodeWalContent`.
  unfoldable pub encode_wal_content : List (WalOp D) → Outcome Bytes
  unfolding encode_body footer
  encode_wal_content ops = do body ← encode_body ops; returned (body ++ footer body)

  -- The checks of `decodeWalOps` on one operation.
  unfoldable pub decode_op : Object → Outcome (WalOp D)
  unfolding decode_kind
  decode_op o = do
    kind ← decode_kind o.kind
    fail_if (not (equal o.op wal_op_put) && not (equal o.op wal_op_delete)) invalid
    check_kind o.op kind
    fail_if (equal o.op wal_op_put && equal o.content []) invalid
    fail_if (equal o.id []) invalid
    fail_if (equal o.path []) invalid
    returned (record {
      op = o.op;
      kind = kind;
      id = o.id;
      path = o.path;
      content = o.content;
      doc = none;
    })

  -- The loop of `decodeWalOps`; a round takes a byte at least.
  unfoldable pub decode_loop : ℕ → Bytes → Outcome (List (WalOp D))
  unfolding decode_op
  decode_loop zero body = failed invalid
  decode_loop (suc fuel) body = elim (json.next body) [
    | eof ↦ returned []
    | malformed ↦ failed invalid
    | found o rest ↦ decode_op o >>= λ op. decode_loop fuel rest >>= λ ops. returned (op ∷ ops)
  ]

  unfoldable pub decode_wal_ops : Bytes → Outcome (List (WalOp D))
  unfolding decode_loop
  decode_wal_ops body = decode_loop (suc (length body)) body

-- The bytes of the footer from one place on.
abbrev pub field : ℕ → ℕ → Bytes → Bytes
field from size bytes = take size (drop from bytes)

-- `readWalState`, given the bytes of the file.
unfoldable pub read_wal_state : Bytes → Outcome (WalState × Bytes)
read_wal_state file =
    let size = length file in
    let tail = drop (size - wal_footer_size) file in
    let body_len = get_le (field 8 8 tail) in
    let crc = get_le (field 24 4 tail) in
    let body = take body_len file in
    if size == 0
    then returned (empty_wal, [])
    else if ltb size wal_footer_size
    then returned (uncommitted, [])
    else if not (equal (take 8 tail) wal_magic)
    then returned (uncommitted, [])
    else if not (inverse 64 body_len == get_le (field 16 8 tail))
    then returned (uncommitted, [])
    else if not (inverse 32 crc == get_le (field 28 4 tail))
    then returned (uncommitted, [])
    else if ltb (2 ^ 63 - 1) body_len
    then returned (uncommitted, [])
    else if ltb (size - wal_footer_size) body_len
    then returned (uncommitted, [])
    else if not (checksum body == crc)
    then failed corrupt
    else returned (committed, body)
