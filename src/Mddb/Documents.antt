-- ===== src/Mddb/Documents.antt =====
-- pkg/mddb: what a database is configured with, the checks of documents in validate.go, and
-- `parseIndexable` of parse.go and `marshalDocument` of wal.go, over the package frontmatter as an
-- interface.
use agent_task.Prelude.{ℕ, not, ◌&&◌, Option, none, some, List, [], ◌∷◌, ◌++◌, if◌then◌else◌}
use agent_task.Text.{Bytes, codes, equal, has_suffix}
use agent_task.Mddb.Outcome.{Outcome, returned, failed, fail_if, invalid, ◌>>=◌, ◌>>◌}
use agent_task.Mddb.Paths.{validate_rel_path}
use agent_task.Mddb.Wal.Json.{JsonCodec}

-- What is called of pkg/mddb/frontmatter, with the options of the configuration: `ParseBytes`, `GetBytes`,
-- `Set` with a string and with an integer, `MarshalYAML` with the keys to put first. Nothing is assumed
-- of them: what is proved holds for any functions in their place.
pub record FrontmatterPackage (F : Type 0) : Type 0 where
  pub parse_bytes : Bytes → Outcome (F × Bytes)
  pub get_bytes : F → Bytes → Option Bytes
  pub set_string : F → Bytes → Bytes → Outcome F
  pub set_int : F → Bytes → ℕ → Outcome F
  pub marshal_yaml : List Bytes → F → Outcome Bytes

-- The configuration, for the user's document type `D` and the frontmatter `F`. The functions of a document
-- are the methods of `Document`, `fingerprint` is that of the schema, `after` the callbacks by kind.
pub record Config (D F : Type 0) : Type 0 where
  pub json : JsonCodec
  pub yaml_package : FrontmatterPackage F
  pub rel_path_from_id : Bytes → Bytes
  pub short_id_from_id : Bytes → Bytes
  pub doc_id : D → Bytes
  pub doc_title : D → Bytes
  pub doc_body : D → Bytes
  pub doc_frontmatter : D → F
  pub fingerprint : ℕ
  pub after : ℕ → Bytes → Outcome (Unit {0})

abbrev pub key_id : Bytes
key_id = codes "id"

abbrev pub key_schema_version : Bytes
key_schema_version = codes "schema_version"

abbrev pub key_title : Bytes
key_title = codes "title"

-- The body behind the frontmatter, with a line break at its end.
unfoldable pub body_text : Bytes → Bytes
body_text body =
    if equal body [] then [] else 10 ∷ (body ++ (if has_suffix body (10 ∷ []) then [] else 10 ∷ []))

-- `IndexableDocument`, a row of the index. Modification times are left out.
pub record Indexable (F : Type 0) : Type 0 where
  pub id : Bytes
  pub short_id : Bytes
  pub rel_path : Bytes
  pub size : ℕ
  pub title : Bytes
  pub body : Bytes
  pub frontmatter : F

abbrev given : Option Bytes → Outcome Bytes
given none = failed invalid
given (some text) = returned text

module _ {D F : Type 0} (cfg : Config D F) where
  -- `deriveAndValidate`: the path and the short id of an id.
  unfoldable pub derive_and_validate : Bytes → Bytes → Outcome (Bytes × Bytes)
  derive_and_validate id fs_path =
      let path = cfg.rel_path_from_id id in
      let short_id = cfg.short_id_from_id id in
      do
        fail_if (equal path []) invalid
        validate_rel_path path
        fail_if (not (equal fs_path []) && not (equal path fs_path)) invalid
        fail_if (equal short_id []) invalid
        returned (path, short_id)

  -- `validateDocument`.
  unfoldable pub validate_document : D → Outcome (Bytes × Bytes)
  unfolding derive_and_validate
  validate_document doc = do
    fail_if (equal (cfg.doc_id doc) []) invalid
    fail_if (equal (cfg.doc_title doc) []) invalid
    derived ← derive_and_validate (cfg.doc_id doc) []
    returned (cfg.doc_id doc, derived.0)

  -- `marshalDocument`.
  unfoldable pub marshal_document : D → Outcome Bytes
  unfolding body_text
  marshal_document doc = do
    fail_if (equal (cfg.doc_id doc) []) invalid
    named ← cfg.yaml_package.set_string (cfg.doc_frontmatter doc) key_id (cfg.doc_id doc)
    versioned ← cfg.yaml_package.set_int named key_schema_version cfg.fingerprint
    titled ← cfg.yaml_package.set_string versioned key_title (cfg.doc_title doc)
    yaml ← cfg.yaml_package.marshal_yaml (key_id ∷ key_schema_version ∷ key_title ∷ []) titled
    returned (yaml ++ body_text (cfg.doc_body doc))

  -- `parseIndexable`.
  unfoldable pub parse_indexable : Bytes → Bytes → ℕ → Bytes → Outcome (Indexable F)
  unfolding derive_and_validate
  parse_indexable fs_rel_path content size expected_id = do
    parsed ← cfg.yaml_package.parse_bytes content
    id ← given (cfg.yaml_package.get_bytes parsed.0 key_id)
    fail_if (equal id []) invalid
    fail_if (not (equal expected_id []) && not (equal id expected_id)) invalid
    title ← given (cfg.yaml_package.get_bytes parsed.0 key_title)
    fail_if (equal title []) invalid
    derived ← derive_and_validate id fs_rel_path
    returned (record {
      id = id;
      short_id = derived.1;
      rel_path = fs_rel_path;
      size = size;
      title = title;
      body = parsed.1;
      frontmatter = parsed.0;
    })
