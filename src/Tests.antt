-- ===== src/Tests.antt =====
-- The theorems at concrete tickets, and runs of the functions on them.
mod Texts
mod Content
mod Ids
mod Lifecycle
mod Model
mod Mddb
mod Listing
mod Cache
mod CacheFile
