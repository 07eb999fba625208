-- ===== src/Core/Wal.antt =====
-- core/wal.go and the parts of core/file.go that keep account of the write-ahead log: reserving
-- space, moving reservations between files, writing records, compaction and garbage collection.
-- Errors of truncating, closing, unlinking and syncing a file are only logged by the source, and
-- change nothing here. The loops over the files take fuel from the number of files ever made.
pub mod Files
pub mod Space
pub mod Record
pub mod Decode
pub mod Replay
pub mod Lock
pub mod Scan
pub mod Start
pub mod Laws
pub mod Quiet
