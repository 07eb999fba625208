-- ===== src/Net/Quiet.antt =====
-- What the code of net/ leaves alone: lines of connections, and numbers of tubes.
pub mod Conns
pub mod Queues
pub mod Arguments
pub mod Handlers
pub mod Lists
pub mod Taken
pub mod Bodies
pub mod Dispatch
pub mod Commands
mod Tests
