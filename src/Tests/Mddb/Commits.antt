-- ===== src/Tests/Mddb/Commits.antt =====
-- A transaction that creates one note and deletes another, with faults.
use agent_task.Prelude.{
  ◌^◌, ◌<◌, ◌≡◌, inl, inr, refl, true, Option, none, some, List, [], ◌∷◌, ◌++◌, if◌then◌else◌,
  length, length-append, take, arith, false,
}
use agent_task.Text.{Bytes, codes, equal, split, has_prefix, has_suffix, join, put_le}
use agent_task.Mddb.Outcome.{returned, replay, invalid}
use agent_task.Mddb.Paths.{validate_rel_path, clean_path}
use agent_task.Mddb.Documents.{Indexable, parse_indexable, derive_and_validate}
use agent_task.Mddb.Wal.{
  WalOp, check_kind, encode_op, encode_wal_content, footer, wal_op_put, wal_op_delete,
}
use agent_task.Mddb.Wal.Footer.{length-footer}
use agent_task.Mddb.Wal.Torn.{IsDropped, torn_write}
use agent_task.Mddb.Wal.Encoding.{IsWritable}
use agent_task.Mddb.Writes.{write_all}
use agent_task.Mddb.World.{
  Disk, World, fine, fails, crashes, went, Loss, Fault, lose, synced_log, stopped,
}
use agent_task.Mddb.Effects.{IsSound, file_writes, row_writes}
use agent_task.Mddb.Effects.Index.{IsIndexed}
use agent_task.Mddb.Effects.Logged.{row_of}
use agent_task.Mddb.Commit.{commit_ops, recover_wal_locked}
use agent_task.Mddb.Recovery.{IsCommittable}
use agent_task.Mddb.Recovery.Committing.{IsDone, IsSafe}
use agent_task.Mddb.Recovery.Crashes.{
  restart, disk_after, commit-IsLogged, commit-IsDurable, recover-encoded,
}
use agent_task.Mddb.Apply.{dir_of}
use agent_task.Mddb.Wal.Json.{kind_number, kind_text}
use agent_task.Tests.Mddb.{Note, notes, sample_json, sample_json-IsJson}

abbrev pub note_text : Bytes
note_text = codes "a" ++ (10 ∷ codes "A")

abbrev pub put_a : WalOp Note
put_a = record {
  op = wal_op_put;
  kind = 1;
  id = codes "a";
  path = codes "a.md";
  content = note_text;
  doc = none;
}

abbrev pub delete_b : WalOp Note
delete_b = record {
  op = wal_op_delete;
  kind = 3;
  id = codes "b";
  path = codes "b.md";
  content = [];
  doc = none;
}

abbrev pub ops : List (WalOp Note)
ops = put_a ∷ delete_b ∷ []

abbrev pub row : Bytes → Bytes → Bytes → Indexable (Bytes × Bytes)
row path content id = record {
  id = codes "a";
  short_id = codes "a";
  rel_path = codes "a.md";
  size = 3;
  title = codes "A";
  body = [];
  frontmatter = (codes "a", codes "A");
}

pub put_a-IsWritable : IsWritable sample_json put_a
unfolding check_kind equal
put_a-IsWritable = record {
  known = inl refl;
  kind = refl;
  named = refl;
  placed = refl;
  filled = refl;
  id_text = refl;
  path_text = refl;
  content_text = refl;
}

pub delete_b-IsWritable : IsWritable sample_json delete_b
unfolding check_kind equal
delete_b-IsWritable = record {
  known = inr refl;
  kind = refl;
  named = refl;
  placed = refl;
  filled = refl;
  id_text = refl;
  path_text = refl;
  content_text = refl;
}

pub put_a-IsSound : IsSound put_a
unfolding equal validate_rel_path clean_path has_prefix has_suffix split join
put_a-IsSound = record { path = refl; known = inl (refl, refl, refl) }

pub delete_b-IsSound : IsSound delete_b
unfolding equal validate_rel_path clean_path has_prefix has_suffix split join
delete_b-IsSound = record { path = refl; known = inr (refl, refl) }

abbrev pub body : Bytes
body =
    sample_json.encode (record {
      op = wal_op_put;
      kind = kind_number 1;
      id = codes "a";
      path = codes "a.md";
      content = note_text;
    })
    ++ (sample_json.encode (record {
      op = wal_op_delete;
      kind = kind_number 3;
      id = codes "b";
      path = codes "b.md";
      content = [];
    })
        ++ [])

unfoldable pub log : Bytes
log = body ++ footer body

encoded : encode_wal_content sample_json ops ≡ returned log
unfolding encode_wal_content encode_op check_kind equal log
encoded = refl

log-short : length log < 2 ^ 56
unfolding log
log-short = omega (arith, length-append body (footer body), length-footer body)

abbrev files_before : Bytes → Option Bytes
files_before p = if equal p (codes "b.md") then some (codes "b") else none

-- A note with a file is there that the transaction deletes.
abbrev pub start : Disk (Indexable (Bytes × Bytes))
start = record {
  wal = synced_log [];
  files = files_before;
  saved_files = files_before;
  rows = λ id. none;
}

abbrev pub files_after : Bytes → Option Bytes
files_after = write_all (file_writes ops) start.files

put_a-IsIndexed : IsIndexed notes (row_of row) files_after put_a
unfolding equal write_all parse_indexable derive_and_validate validate_rel_path clean_path
    has_prefix has_suffix split join
put_a-IsIndexed = record { removed = λ e. refl; put = λ e. (note_text, refl, refl, refl) }

delete_b-IsIndexed : IsIndexed notes (row_of row) files_after delete_b
unfolding equal
delete_b-IsIndexed = record { removed = λ e. refl; put = λ e. cc e }

pub committable : IsCommittable notes row ops start.files log
committable = record {
  json = sample_json-IsJson;
  writable = (put_a-IsWritable, (delete_b-IsWritable, tt));
  sound = (put_a-IsSound, (delete_b-IsSound, tt));
  indexed = (put_a-IsIndexed, (delete_b-IsIndexed, tt));
  encoded = encoded;
  short = log-short;
}

-- The process crashes when it writes the second file, and with the power the first one is lost.
abbrev crashing : World (Indexable (Bytes × Bytes))
crashing = record {
  disk = start;
  alive = true;
  faults = fine ∷ fine ∷ fine ∷ fine ∷ fine ∷ fine ∷ fine ∷ fine ∷ crashes 9 ∷ [];
}

abbrev all_lost : Loss
all_lost = record { part = 5; back = true; kept = λ p. false }

commit-IsLogged_example :
    IsSafe notes row ops start.files start.rows log [] committable
      (lose all_lost (disk_after (commit_ops notes ops crashing)))
commit-IsLogged_example =
    commit-IsLogged notes row ops log crashing committable all_lost refl (λ p. refl)

abbrev written : Disk (Indexable (Bytes × Bytes))
written = record start { wal = synced_log log }

recover-encoded_example :
    recover_wal_locked notes (restart [] written) ≡ stopped (replay invalid) (restart [] written)
recover-encoded_example =
    recover-encoded notes row ops log put_a (delete_b ∷ []) written sample_json-IsJson
      (put_a-IsWritable, (delete_b-IsWritable, tt)) encoded (omega (arith, log-short))

abbrev small : Bytes
small = codes "body"

torn_write_example : IsDropped (take 20 (small ++ footer small))
torn_write_example =
    torn_write small 20 (refl, (refl, (refl, (refl, tt)))) (omega arith)
      (omega (arith, length-append small (footer small), length-footer small))

abbrev pub calm : World (Indexable (Bytes × Bytes))
calm = restart [] start

-- Both directories are the data directory.
abbrev saved_after : Bytes → Option Bytes
saved_after p =
    if equal (dir_of (codes "b.md")) (dir_of p)
    then files_after p
    else if equal (dir_of (codes "a.md")) (dir_of p)
    then files_after p
    else files_before p

abbrev finished : World (Indexable (Bytes × Bytes))
finished = restart [] (record {
  wal = record { text = []; saved = log; synced = false };
  files = files_after;
  saved_files = saved_after;
  rows = write_all (row_writes (row_of row) ops) start.rows;
})

committed_calm : commit_ops notes ops calm ≡ went tt finished
unfolding commit_ops encode_wal_content encode_op check_kind equal parse_indexable log put_le
    derive_and_validate validate_rel_path clean_path has_prefix has_suffix split join write_all
committed_calm = refl

commit-IsDurable_example :
    IsDone notes row ops start.files start.rows log [] committable (lose all_lost finished.disk)
commit-IsDurable_example =
    commit-IsDurable notes row ops log calm committable all_lost finished refl (λ p. refl)
      committed_calm

-- A log of the same operations whose kinds are texts.
abbrev named_body : Bytes
named_body =
    sample_json.encode (record {
      op = wal_op_put;
      kind = kind_text (codes "create");
      id = codes "a";
      path = codes "a.md";
      content = note_text;
    })
    ++ sample_json.encode (record {
      op = wal_op_delete;
      kind = kind_text (codes "delete");
      id = codes "b";
      path = codes "b.md";
      content = [];
    })

named_log : Bytes
named_log = named_body ++ footer named_body

abbrev pending : Disk (Indexable (Bytes × Bytes))
pending = record start { wal = synced_log named_log }

-- The first recovery fails in its second call, the second one crashes in its sixth.
abbrev attempts : List (Loss × List Fault)
attempts =
    (all_lost, fine ∷ fails 0 ∷ [])
    ∷ (all_lost, fine ∷ fine ∷ fine ∷ fine ∷ fine ∷ crashes 0 ∷ [])
    ∷ []
