-- ===== src/Tests/Mddb/Orders.antt =====
-- The calls that make the transaction, and its commit in two orders.
use agent_task.Prelude.{
  ◌^◌, ◌<◌, ◌≡◌, refl, false, Option, List, [], ◌∷◌, ◌++◌, All, length, length-append, arith,
}
use agent_task.Text.{Bytes, codes, equal, split, has_prefix, has_suffix, join}
use agent_task.Mddb.Outcome.{returned}
use agent_task.Mddb.Paths.{validate_rel_path, clean_path}
use agent_task.Mddb.Documents.{
  Indexable, parse_indexable, derive_and_validate, marshal_document, body_text,
}
use agent_task.Mddb.Wal.{
  WalOp, check_kind, encode_op, encode_wal_content, footer, wal_op_put, wal_op_delete,
}
use agent_task.Mddb.Wal.Json.{kind_number}
use agent_task.Mddb.Wal.Footer.{length-footer}
use agent_task.Mddb.Writes.{write_all}
use agent_task.Mddb.World.{World, went}
use agent_task.Mddb.Materialize.{materialize_ops}
use agent_task.Mddb.Effects.{IsSound, file_writes, row_writes}
use agent_task.Mddb.Effects.Index.{IsIndexed}
use agent_task.Mddb.Effects.Logged.{row_of}
use agent_task.Mddb.Commit.{commit_ops}
use agent_task.Mddb.Orders.{same, swap}
use agent_task.Mddb.Tx.Buffer.{buffered, ops_of, IsMap}
use agent_task.Mddb.Tx.Calls.{Request, creating, deleting, calls, Marshals, new_tx, calls-IsSound}
use agent_task.Mddb.Recovery.{IsCommittable}
use agent_task.Mddb.Recovery.Crashes.{restart}
use agent_task.Mddb.Recovery.Order.{commit-Reordered}
use agent_task.Tests.Mddb.{Note, notes, sample_json, sample_json-IsJson}
use agent_task.Tests.Mddb.Commits.{
  put_a, delete_b, ops, row, start, calm, log, put_a-IsWritable, delete_b-IsWritable, put_a-IsSound,
  delete_b-IsSound, committable, note_text,
}

not_empty : (id title : Bytes) → equal ((id ++ (10 ∷ title)) ++ []) [] ≡ false
unfolding equal
not_empty [] title = refl
not_empty (b ∷ id) title = refl

notes-Marshals : Marshals notes
unfolding marshal_document equal body_text
notes-Marshals = record {
  text = λ n. (n.id ++ (10 ∷ n.title)) ++ [];
  marshalled = λ n e. rw e refl;
  filled = λ n. not_empty n.id n.title;
}

abbrev requests : List (Request Note)
requests = creating (record { id = codes "a"; title = codes "A" }) ∷ deleting (codes "b") ∷ []

calls-IsSound_example :
    (os : List (WalOp Note)) × (materialize_ops notes
        (ops_of (calls notes requests (new_tx notes) calm).ops)
      ≡ returned os)
    × All IsSound os
    × ((content : Bytes) × (encode_wal_content sample_json os ≡ returned content))
calls-IsSound_example =
    calls-IsSound notes notes-Marshals requests calm
      (ops_of (calls notes requests (new_tx notes) calm).ops)
      (same (ops_of (calls notes requests (new_tx notes) calm).ops))

abbrev others : List (WalOp Note)
others = delete_b ∷ put_a ∷ []

abbrev other_body : Bytes
other_body =
    sample_json.encode (record {
      op = wal_op_delete;
      kind = kind_number 3;
      id = codes "b";
      path = codes "b.md";
      content = [];
    })
    ++ (sample_json.encode (record {
      op = wal_op_put;
      kind = kind_number 1;
      id = codes "a";
      path = codes "a.md";
      content = note_text;
    })
        ++ [])

other_log : Bytes
other_log = other_body ++ footer other_body

other_encoded : encode_wal_content sample_json others ≡ returned other_log
unfolding encode_wal_content encode_op check_kind equal other_log
other_encoded = refl

other_log-short : length other_log < 2 ^ 56
unfolding other_log
other_log-short =
    omega (arith, length-append other_body (footer other_body), length-footer other_body)

abbrev other_files : Bytes → Option Bytes
other_files = write_all (file_writes others) start.files

put_a-IsIndexed : IsIndexed notes (row_of row) other_files put_a
unfolding equal write_all parse_indexable derive_and_validate validate_rel_path clean_path
    has_prefix has_suffix split join
put_a-IsIndexed = record { removed = λ e. refl; put = λ e. (note_text, refl, refl, refl) }

delete_b-IsIndexed : IsIndexed notes (row_of row) other_files delete_b
unfolding equal
delete_b-IsIndexed = record { removed = λ e. refl; put = λ e. cc e }

other-IsCommittable : IsCommittable notes row others start.files other_log
other-IsCommittable = record {
  json = sample_json-IsJson;
  writable = (delete_b-IsWritable, (put_a-IsWritable, tt));
  sound = (delete_b-IsSound, (put_a-IsSound, tt));
  indexed = (delete_b-IsIndexed, (put_a-IsIndexed, tt));
  encoded = other_encoded;
  short = other_log-short;
}

pub paths_once : IsMap (file_writes ops)
unfolding buffered equal
paths_once = (refl, (refl, tt))

rows_once : IsMap (row_writes (row_of row) ops)
unfolding buffered equal
rows_once = (refl, (refl, tt))

commit-Reordered_example :
    (v w : World (Indexable (Bytes × Bytes))) × (commit_ops notes ops (restart [] start)
      ≡ went tt v)
    × (commit_ops notes others (restart [] start) ≡ went tt w)
    × ((p : Bytes) → v.disk.files p ≡ w.disk.files p)
    × ((id : Bytes) → v.disk.rows id ≡ w.disk.rows id)
commit-Reordered_example =
    commit-Reordered notes row start ops others log other_log refl (λ p. refl) committable
      other-IsCommittable (swap put_a delete_b []) paths_once rows_once
