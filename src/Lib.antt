-- ===== src/Lib.antt =====
-- tk, a ticket tracker whose tickets are markdown files with a frontmatter. A command reads a ticket's
-- file under a lock, edits the text, writes it back and updates a cache of summaries; listings read the
-- cache, or the parsed files where there is none. The model follows these parts:
--
-- - Text: strings as lists of bytes, and what the code uses of Go's `strings`, `strconv` and `fmt`.
--   White space is what `unicode.IsSpace` accepts, in UTF-8.
-- - Result: errors as values. Messages and wrapping are left out.
-- - Content: internal/ticket/ticket.go, reading and editing one field in a ticket's text
--   (GetStatusFromContent, UpdateStatusInContent, AddFieldToContent, RemoveFieldFromContent, the
--   blocked-by list). The readers' and the editors' loops, which the source repeats in each function,
--   are `field_value` and `line_index`.
-- - Ticket: the types Ticket and Summary, the validity tests and FormatTicket.
-- - Frontmatter: ParseTicketFrontmatter, given the file's content. The state of its loop is `State`, a
--   round of it `step`. Whether a text is a time (`time.Parse` at RFC 3339) is a parameter.
-- - Ident: GenerateID at given Unix seconds, and generateUniqueIDFromBase. Whether an id exists is a
--   parameter. The search for a suffix has fuel 105: the suffixes go through 26 last letters for each
--   of the lengths 1 to 4, and the next one is longer than four.
-- - Lifecycle: internal/cli start.go, close.go, reopen.go, block.go and unblock.go, the handlers that they
--   give to WithTicketLock. The checks of a command around its handler, the lock and the files are not
--   modelled.
-- - Listing: filterTicketResults in ticket.go, and FilterEntriesWithOpts in cache.go over decoded index
--   entries; Listing/Stored decodes them from a cache file. Listing/Agreement has the entry that the
--   index holds of a ticket, and the options that ListTickets gives to the cache.
-- - Cache: the record of one ticket in the binary cache, encodeSummaryData and readDataEntry in cache.go,
--   and the entry that UpdateCacheEntry makes. A read past the end of a record is `none`, also where the
--   source reads on in the record behind it. Cache/File is the file: LoadBinaryCache, the search in the
--   index and Lookup. A slice outside the file, a panic, is `none`. The search has one more fuel than
--   there are entries, since each round leaves out one. Cache/Writer is writeBinaryCache up to the bytes
--   that go to the atomic writer, Cache/Delete is DeleteCacheEntry. Reconciliation is not modelled.
-- - Model: internal/testutil/spec/spec.go, the reference model that the command line is tested against.
--   Model holds its types and its errors, Model/Graph its searches, Model/Commands its commands, as
--   functions from the list of tickets to the new list. A nil pointer, or a call of `panic`, is the outcome
--   `panicked`. The searches that go on until they meet a visited ticket have one more fuel than there
--   are tickets, since each call but the last visits another one. Model/Views has the commands that only read.
-- - Mddb: pkg/mddb, the database of documents. Mddb/Wal is the log of wal.go, with its footer and its
--   states. The objects in it are written and read by a parameter, `encoding/json`, which writes the kind
--   as a number and reads it as a text. Mddb/World has the log, the files and the index, and calls of the
--   system that fail or in which the process crashes, as a list of faults. When the power goes, a log
--   that has not been synced keeps a part of its text or is as it was at its last sync, and a file may be as
--   it was when its directory was last synced. A file is replaced at once, and a transaction of
--   the index is done or not and is safe then, as the atomic writer and SQLite promise. Mddb/Apply
--   applies the operations of a log, Mddb/Commit is the commit of tx.go and `recoverWalLocked`.
--   Mddb/Documents and Mddb/Paths are parse.go, validate.go and `marshalDocument`, over the calls of
--   pkg/mddb/frontmatter, of which nothing is assumed. Mddb/Tx has a transaction and its buffer. Making a
--   directory, a statement of SQL and the test of the context are calls that change nothing but may
--   fail. Modification times are left out.
--
-- Not modelled: flag parsing, output, configuration, editing and repair (internal/cli), the lock file
-- (internal/ticket/lock.go), the frontmatter, the schema and the queries of pkg/mddb, pkg/fs and the
-- programs under cmd.
mod Prelude
pub mod Text
pub mod Result
pub mod Content
pub mod Ticket
pub mod Frontmatter
pub mod Ident
pub mod Lifecycle
pub mod Model
pub mod Listing
pub mod Cache
pub mod Mddb
pub mod Tests
