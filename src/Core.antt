-- ===== src/Core.antt =====
-- The queue of core/: jobs, tubes and the write-ahead log.
pub mod Links
pub mod Job
pub mod Tube
pub mod Wal
pub mod Bury
