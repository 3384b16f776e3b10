-- ===== src/Tests/Mddb/Later.antt =====
-- A second transaction behind the first one.
use agent_task.Prelude.{◌≡◌, refl, true, false, [], ◌∷◌}
use agent_task.Text.{Bytes, codes, equal, split, has_prefix, has_suffix, join}
use agent_task.Mddb.Outcome.{already_exists, not_found}
use agent_task.Mddb.Paths.{validate_rel_path, clean_path}
use agent_task.Mddb.Documents.{Indexable, derive_and_validate, validate_document}
use agent_task.Mddb.World.{World, stopped, went}
use agent_task.Mddb.Commit.{commit_ops}
use agent_task.Mddb.Orders.{same, swap}
use agent_task.Mddb.Tx.{create, update}
use agent_task.Mddb.Tx.Buffer.{buffered}
use agent_task.Mddb.Tx.Calls.{new_tx}
use agent_task.Mddb.Recovery.Crashes.{restart}
use agent_task.Mddb.Recovery.Later.{MayWrite, create-commit, update-commit}
use agent_task.Tests.Mddb.{Note, notes}
use agent_task.Tests.Mddb.Commits.{put_a, delete_b, ops, row, start, log, committable}
use agent_task.Tests.Mddb.Orders.{paths_once}

abbrev note : Bytes → Note
note id = record { id = id; title = codes "T" }

MayWrite-a : MayWrite notes (new_tx notes) (note (codes "a")) (codes "a") (codes "a.md")
unfolding validate_document derive_and_validate validate_rel_path clean_path equal has_prefix
    has_suffix split join buffered
MayWrite-a = record { is_open = refl; valid = refl; same_path = refl }

MayWrite-b : MayWrite notes (new_tx notes) (note (codes "b")) (codes "b") (codes "b.md")
unfolding validate_document derive_and_validate validate_rel_path clean_path equal has_prefix
    has_suffix split join buffered
MayWrite-b = record { is_open = refl; valid = refl; same_path = refl }

is_put : equal put_a.op (codes "put") ≡ true
unfolding equal
is_put = refl

not_put : equal delete_b.op (codes "put") ≡ false
unfolding equal
not_put = refl

create-commit_example :
    (end : World (Indexable (Bytes × Bytes))) × (commit_ops notes ops (restart [] start)
      ≡ went tt end)
    × (create notes (new_tx notes) (note (codes "a")) (restart [] end.disk)
        ≡ stopped already_exists (restart [] end.disk))
create-commit_example =
    create-commit notes row start put_a ops (delete_b ∷ []) log (new_tx notes) (note (codes "a"))
      (codes "a") refl (λ p. refl) committable paths_once (same ops) is_put MayWrite-a

update-commit_example :
    (end : World (Indexable (Bytes × Bytes))) × (commit_ops notes ops (restart [] start)
      ≡ went tt end)
    × (update notes (new_tx notes) (note (codes "b")) (restart [] end.disk)
        ≡ stopped not_found (restart [] end.disk))
update-commit_example =
    update-commit notes row start delete_b ops (put_a ∷ []) log (new_tx notes) (note (codes "b"))
      (codes "b") refl (λ p. refl) committable paths_once (swap put_a delete_b []) not_put
      MayWrite-b
