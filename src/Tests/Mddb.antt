-- ===== src/Tests/Mddb.antt =====
-- A small database: notes with a title, and a codec for the texts of the log.
pub mod Commits
pub mod Orders
pub mod Later
use agent_task.Prelude.{
  ℕ, zero, suc, ◌+◌, ◌-◌, ◌≡◌, refl, sym, ap, ◌∙◌, Bool, true, false, Option, none, some, List, [],
  ◌∷◌, ◌++◌, append_assoc, ◌==◌, if◌then◌else◌, All, All-append, arith,
}
use agent_task.Text.{Bytes, codes, equal, split}
use agent_task.Mddb.Outcome.{Outcome, returned, failed, invalid}
use agent_task.Mddb.Wal.Json.{
  Kind, no_kind, kind_number, kind_text, Object, Next, eof, malformed, found, JsonCodec, IsText,
  IsJson,
}
use agent_task.Mddb.Documents.{Config, key_id}

abbrev of_kind : Kind → Bytes
of_kind no_kind = []
of_kind (kind_number n) = 1 ∷ n ∷ []
of_kind (kind_text s) = 2 ∷ s

abbrev to_kind : Bytes → Kind
to_kind [] = no_kind
to_kind (suc zero ∷ n ∷ s) = kind_number n
to_kind (b ∷ s) = kind_text s

to_kind-of_kind : (k : Kind) → to_kind (of_kind k) ≡ k
to_kind-of_kind no_kind = refl
to_kind-of_kind (kind_number n) = refl
to_kind-of_kind (kind_text []) = refl
to_kind-of_kind (kind_text (b ∷ s)) = refl

-- A text with its end marked by the byte 1.
abbrev mark : Bytes → Bytes
mark [] = 1 ∷ []
mark (b ∷ s) = (b + 2) ∷ mark s

abbrev with_byte : ℕ → Option (Bytes × Bytes) → Option (Bytes × Bytes)
with_byte b none = none
with_byte b (some (s, rest)) = some ((b - 2) ∷ s, rest)

unfoldable marked : Bytes → Option (Bytes × Bytes)
marked [] = none
marked (b ∷ s) = let rest = marked s in if b == 1 then some ([], s) else with_byte b rest

marked-mark : (s rest : Bytes) → marked (mark s ++ rest) ≡ some (s, rest)
unfolding marked
marked-mark [] rest = refl
marked-mark (b ∷ s) rest = rw (marked-mark s rest) (ground arith)

mark-no_zero : (s : Bytes) → All (λ b. (b == 0) ≡ false) (mark s)
mark-no_zero [] = (refl, tt)
mark-no_zero (b ∷ s) = (ground arith, mark-no_zero s)

abbrev and_then : Option (Bytes × Bytes) → (Bytes → Bytes → Next) → Next
and_then none k = malformed
and_then (some (s, rest)) k = k s rest

parts : Bytes → Next
unfolding marked
parts bytes = and_then (marked bytes) (λ op r1. and_then (marked r1) (λ kind r2.
    and_then (marked r2) (λ id r3. and_then (marked r3) (λ path r4.
      and_then (marked r4) (λ content r5.
        found (record { op = op; kind = to_kind kind; id = id; path = path; content = content })
          r5)))))

unfoldable pub next_object : Bytes → Next
unfolding parts
next_object [] = eof
next_object (b ∷ bytes) = parts (b ∷ bytes)

abbrev pub sample_json : JsonCodec
sample_json = record {
  encode =
      λ o. mark o.op ++ (mark (of_kind o.kind) ++ (mark o.id ++ (mark o.path ++ mark o.content)));
  next = next_object;
  valid_text = λ s. true;
}

parts-encode : (o : Object) (rest : Bytes) → parts (sample_json.encode o ++ rest) ≡ found o rest
unfolding parts
parts-encode o rest = simp (append_assoc, marked-mark, to_kind-of_kind) refl

next-parts : (s rest : Bytes) → next_object (mark s ++ rest) ≡ parts (mark s ++ rest)
unfolding next_object
next-parts [] rest = refl
next-parts (b ∷ s) rest = refl

next-encode :
    (o : Object) (rest : Bytes)
    → IsText sample_json o
    → next_object (sample_json.encode o ++ rest) ≡ found o rest
next-encode o rest t =
    let others = mark (of_kind o.kind) ++ (mark o.id ++ (mark o.path ++ mark o.content)) in
    let e : sample_json.encode o ++ rest ≡ mark o.op ++ (others ++ rest) =
      append_assoc (mark o.op) others rest in
    ap next_object e ∙ next-parts o.op (others ++ rest) ∙ ap parts (sym e) ∙ parts-encode o rest

marked_texts :
    (a b c d e : Bytes)
    → All (λ x. (x == 0) ≡ false) (mark a ++ (mark b ++ (mark c ++ (mark d ++ mark e))))
marked_texts a b c d e =
    let P = λ (x : ℕ). (x == 0) ≡ false in
    All-append P (mark a) _ (mark-no_zero a) (
      All-append P (mark b) _ (mark-no_zero b) (
        All-append P (mark c) _ (mark-no_zero c)
          (All-append P (mark d) _ (mark-no_zero d) (mark-no_zero e))))

pub sample_json-IsJson : IsJson sample_json
unfolding next_object
sample_json-IsJson = record {
  next-nil = refl;
  next-encode = next-encode;
  valid_text-ascii = λ s a. refl;
  no_zero = λ o. marked_texts o.op (of_kind o.kind) o.id o.path o.content;
}

-- A note is an id and a title, in two lines.
pub record Note : Type 0 where
  pub id : Bytes
  pub title : Bytes

abbrev first_two : List Bytes → Outcome ((Bytes × Bytes) × Bytes)
first_two (id ∷ title ∷ rest) = returned ((id, title), [])
first_two other = failed invalid

abbrev pub notes : Config Note (Bytes × Bytes)
notes = record {
  json = sample_json;
  yaml_package = record {
    parse_bytes = λ content. first_two (split content 10);
    get_bytes = λ f key. some (if equal key key_id then f.0 else f.1);
    set_string = λ f key value. returned (if equal key key_id then (value, f.1) else (f.0, value));
    set_int = λ f key value. returned f;
    marshal_yaml = λ keys f. returned (f.0 ++ (10 ∷ f.1));
  };
  rel_path_from_id = λ id. id ++ codes ".md";
  short_id_from_id = λ id. id;
  doc_id = λ n. n.id;
  doc_title = λ n. n.title;
  doc_body = λ n. [];
  doc_frontmatter = λ n. ([], []);
  fingerprint = 1;
  after = λ kind id. returned tt;
}
