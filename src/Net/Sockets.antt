-- ===== src/Net/Sockets.antt =====
-- net/linux.go, net/darwin.go and net/windows.go: what sockWant asks the system for and how sockNext
-- names an event. The answers of the system are arguments. A socket is model.Socket, of model/conn.go.
pub mod Linux
pub mod Darwin
use gostalkd.Prelude.{ℕ, Bool, false}

-- A model.Socket: none, the server's, a connection's, or the address of a field that is no socket.
pub data Pointed : Type 0 where
  null stray server : Pointed
  client : ℕ → Pointed

-- what sockNext points its argument at, the byte that it returns, and whether with an error
pub record Next : Type 0 where
  pub socket : Pointed
  pub rw : ℕ
  pub failed : Bool

-- sockNext of net/windows.go, which leaves the pointer as it was
abbrev pub windows_sock_next : Pointed → Next
windows_sock_next s = record { socket = s; rw = 0; failed = false }
