-- ===== src/Mddb/World.antt =====
-- What pkg/mddb works on: the log, the files and the index, with calls of the system that may fail, a
-- process that may crash in one of them, and what is lost with the power.
pub mod Hoare
use agent_task.Prelude.{
  ℕ, ◌+◌, Bool, true, false, Option, none, some, List, [], ◌∷◌, ◌++◌, if◌then◌else◌, take, drop,
  length,
}
use agent_task.Text.{Bytes, equal}
use agent_task.Mddb.Outcome.{Failure, Outcome, returned, failed, system, incomplete, replay}

-- The log: what is read of it, what was in it when it was synced last, and whether it is so still.
pub record Log : Type 0 where
  pub text : Bytes
  pub saved : Bytes
  pub synced : Bool

abbrev pub synced_log : Bytes → Log
synced_log text = record { text = text; saved = text; synced = true }

abbrev pub rewritten : Bytes → Log → Log
rewritten text log = record { text = text; saved = log.saved; synced = false }

-- What the process sees when it ends, and what is safe of it. Files go by their path below the data
-- directory, rows by id. `saved_files` are the files as the directories had them when they were synced.
pub record Disk (R : Type 0) : Type 0 where
  pub wal : Log
  pub files : Bytes → Option Bytes
  pub saved_files : Bytes → Option Bytes
  pub rows : Bytes → Option R

-- What a loss of power takes: of a log that is not synced, a prefix is left or the old text is back; of the
-- files, those are left whose change has reached the disk.
pub record Loss : Type 0 where
  pub part : ℕ
  pub back : Bool
  pub kept : Bytes → Bool

abbrev pub surviving : Loss → Log → Bytes
surviving l log =
    if log.synced then log.text else if l.back then log.saved else take l.part log.text

abbrev pub lose : {R : Type 0} → Loss → Disk R → Disk R
lose l d =
    let files : Bytes → Option Bytes = λ p. if l.kept p then d.files p else d.saved_files p in
    record {
      wal = synced_log (surviving l d.wal);
      files = files;
      saved_files = files;
      rows = d.rows;
    }

-- How a call of the system ends. A write that does not end well may have written that many bytes.
pub data Fault : Type 0 where
  fine : Fault
  fails : ℕ → Fault
  crashes : ℕ → Fault

-- The faults of the calls to come; behind the last one all calls are fine.
pub record World (R : Type 0) : Type 0 where
  pub disk : Disk R
  pub alive : Bool
  pub faults : List Fault

-- A call ends in a world, with an error or a value.
pub data Ended (R A : Type 0) : Type 0 where
  stopped : Failure → World R → Ended R A
  went : A → World R → Ended R A

abbrev pub Io : Type 0 → Type 0 → Type 0
Io R A = World R → Ended R A

abbrev pub pure : {R A : Type 0} → A → Io R A
pure a w = went a w

infixl 5 ◌>>=◌ ◌>>◌
abbrev pub ◌>>=◌ : {R A B : Type 0} → Io R A → (A → Io R B) → Io R B
◌>>=◌ m next w = elim (m w) [ stopped e w' ↦ stopped e w' | went a w' ↦ next a w' ]

abbrev pub ◌>>◌ : {R B : Type 0} → Io R (Unit {0}) → Io R B → Io R B
m >> k = m >>= λ _. k

-- A computation that calls nothing of the system.
abbrev pub lift : {R A : Type 0} → Outcome A → Io R A
lift (failed e) w = stopped e w
lift (returned a) w = went a w

-- `fmt.Errorf("%w: …", …)` around an error.
abbrev pub wrap : {R A : Type 0} → (Failure → Failure) → Io R A → Io R A
wrap f m w = elim (m w) [ stopped e w' ↦ stopped (f e) w' | went a w' ↦ went a w' ]

-- Cleaning up behind an error, whose own errors are joined to it.
abbrev pub on_error : {R A : Type 0} → Io R A → Io R (Unit {0}) → Io R A
on_error m clean w = elim (m w) [
  | stopped e w' ↦ elim (clean w') [ stopped _ w'' ↦ stopped e w'' | went _ w'' ↦ stopped e w'' ]
  | went a w' ↦ went a w'
]

-- A call whose error is ignored.
abbrev pub ignore : {R : Type 0} → Io R (Unit {0}) → Io R (Unit {0})
ignore m w = elim (m w) [ stopped e w' ↦ went tt w' | went _ w' ↦ went tt w' ]

-- A call of the system, by what it does to the disk if it is fine, fails, or the process crashes in it.
pub record Call (R : Type 0) : Type 0 where
  pub full : Disk R → Disk R
  pub failing : ℕ → Disk R → Disk R
  pub crashing : ℕ → Disk R → Disk R

abbrev meet : {R : Type 0} → Call R → List Fault → Io R (Unit {0})
meet c [] w = went tt (record w { disk = c.full w.disk })
meet c (fine ∷ fs) w = went tt (record w { disk = c.full w.disk; faults = fs })
meet c (fails n ∷ fs) w = stopped system (record w { disk = c.failing n w.disk; faults = fs })
meet c (crashes n ∷ fs) w =
    stopped system (record w { disk = c.crashing n w.disk; alive = false; faults = fs })

-- A process that has crashed calls nothing any more.
unfoldable pub call : {R : Type 0} → Call R → Io R (Unit {0})
call c w = if w.alive then meet c w.faults w else stopped system w

-- A call that does everything or nothing to the disk.
abbrev pub step : {R : Type 0} → (Disk R → Disk R) → Call R
step f = record { full = f; failing = λ n d. d; crashing = λ n d. d }

-- A call that changes nothing of what is modelled.
abbrev pub quiet : {R : Type 0} → Io R (Unit {0})
quiet = call (step (λ d. d))

-- `truncateWal`, which does not sync.
abbrev pub truncate_wal : {R : Type 0} → Io R (Unit {0})
truncate_wal = call (step (λ d. record d { wal = rewritten [] d.wal }))

-- A write to the start of the log; what is written before an error stays.
abbrev pub overwrite : Bytes → Bytes → Bytes
overwrite content old = content ++ drop (length content) old

abbrev pub write_at_start : {R : Type 0} → Bytes → Io R (Unit {0})
write_at_start content = call (record {
  full = λ d. record d { wal = rewritten (overwrite content d.wal.text) d.wal };
  failing = λ n d. record d { wal = rewritten (overwrite (take n content) d.wal.text) d.wal };
  crashing = λ n d. record d { wal = rewritten (overwrite (take n content) d.wal.text) d.wal };
})

-- `Sync` of the log.
abbrev pub sync_wal : {R : Type 0} → Io R (Unit {0})
sync_wal = call (step (λ d. record d { wal = synced_log d.wal.text }))

abbrev pub update {ℓ} : {V : Type ℓ} → (Bytes → Option V) → Bytes → Option V → Bytes → Option V
update f k v j = if equal k j then v else f j

-- `AtomicWriter.Write` without syncing the directory: the new file takes the place of the old one at
-- once, for who reads it, and for good when the directory is synced.
abbrev pub write_file : {R : Type 0} → Bytes → Bytes → Io R (Unit {0})
write_file path content = call (step (λ d. record d { files = update d.files path (some content) }))

-- `Remove`; a file that is not there is no error.
abbrev pub remove_file : {R : Type 0} → Bytes → Io R (Unit {0})
remove_file path = call (step (λ d. record d { files = update d.files path none }))

-- `Sync` of a directory, given by which paths are in it.
abbrev pub sync_dir : {R : Type 0} → (Bytes → Bool) → Io R (Unit {0})
sync_dir inside =
    call
      (step (λ d. record d { saved_files = λ p. if inside p then d.files p else d.saved_files p }))

-- The size that `Stat` gives of a file.
abbrev pub size_of : {R : Type 0} → Option Bytes → Io R ℕ
size_of none = lift (failed system)
size_of (some content) = pure (length content)

unfoldable pub stat : {R : Type 0} → Bytes → Io R ℕ
stat path = quiet >> λ w. size_of (w.disk.files path) w
