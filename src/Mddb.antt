-- ===== src/Mddb.antt =====
-- pkg/mddb: the database of documents, its write-ahead log, its transactions and its recovery.
pub mod Outcome
pub mod Words
pub mod Paths
pub mod Documents
pub mod Apply
pub mod Materialize
pub mod Commit
pub mod Writes
pub mod Effects
pub mod Recovery
pub mod Tx
pub mod Orders
pub mod World
pub mod Wal
