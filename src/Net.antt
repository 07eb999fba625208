-- ===== src/Net.antt =====
-- The server of net/: connections, replies, the queue of jobs and the commands.
pub mod Conn
pub mod Reply
pub mod Watch
pub mod Stats
pub mod Close
pub mod Io
pub mod Serve
pub mod Tick
pub mod Sockets
pub mod Start
pub mod Queue
pub mod Kick
pub mod Commands
pub mod Protocol
pub mod Quiet
pub mod Tallied
