-- ===== src/Mddb/Wal/Json.antt =====
-- What pkg/mddb/wal.go relies on of `encoding/json`: an operation is written as one object, and a
-- decoder reads one object after the other from the log.
use agent_task.Prelude.{ℕ, ◌≡◌, ◌==◌, ltb, false, Bool, true, [], ◌++◌, All}
use agent_task.Text.{Bytes}

-- The value of the field "kind". `MarshalText` has a pointer receiver, and the encoder is given an
-- operation by value, so that it does not find the method and writes the number. The decoder is given
-- a pointer: it calls `UnmarshalText` on a text, and any other value is an error.
pub data Kind : Type 0 where
  no_kind : Kind
  kind_number : ℕ → Kind
  kind_text : Bytes → Kind

-- The fields of an operation in JSON; a kind 0 or an empty content is left out.
pub record Object : Type 0 where
  pub op : Bytes
  pub kind : Kind
  pub id : Bytes
  pub path : Bytes
  pub content : Bytes

-- What `Decoder.Decode` finds: the end, a syntax error, or an object and what is left of the input.
pub data Next : Type 0 where
  eof malformed : Next
  found : Object → Bytes → Next

-- `Encoder.Encode`, `Decoder.Decode` and `utf8.ValidString`.
pub record JsonCodec : Type 0 where
  pub encode : Object → Bytes
  pub next : Bytes → Next
  pub valid_text : Bytes → Bool

abbrev pub IsValidKind : JsonCodec → Kind → Type 0
IsValidKind json no_kind = Unit
IsValidKind json (kind_number n) = Unit
IsValidKind json (kind_text t) = json.valid_text t ≡ true

pub record IsText (json : JsonCodec) (o : Object) : Type 0 where
  pub op : json.valid_text o.op ≡ true
  pub kind : IsValidKind json o.kind
  pub id : json.valid_text o.id ≡ true
  pub path : json.valid_text o.path ≡ true
  pub content : json.valid_text o.content ≡ true

-- An object of UTF-8 texts is read back as it was written, and control characters are escaped.
pub record IsJson (json : JsonCodec) : Type 0 where
  pub next-nil : json.next [] ≡ eof
  pub next-encode :
      (o : Object) (rest : Bytes) → IsText json o → json.next (json.encode o ++ rest) ≡ found o rest
  pub valid_text-ascii : (s : Bytes) → All (λ b. ltb b 128 ≡ true) s → json.valid_text s ≡ true
  pub no_zero : (o : Object) → All (λ b. (b == 0) ≡ false) (json.encode o)
