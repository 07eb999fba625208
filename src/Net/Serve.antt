-- ===== src/Net/Serve.antt =====
-- net/serv.go: hConn, which serves a connection whose socket is ready, and hAccept.
pub mod Rounds
mod Tests
use gostalkd.Prelude.{
  ℕ, zero, suc, ◌+◌, Bool, true, false, not, ◌&&◌, none, some, ◌==◌, if◌then◌else◌, positive,
  length,
}
use gostalkd.Machine.{ConnState, want_command, close}
use gostalkd.Machine.Actions.{
  M, ◌>>=◌, ◌>>◌, return, done, panic, read, when, get_conn, change_conn,
}
use gostalkd.Net.Protocol.{scan_line_end}
use gostalkd.Net.Watch.{new_conn}
use gostalkd.Net.Close.{sock_want, epoll_q_apply, epoll_q_rm_conn, conn_close}
use gostalkd.Net.Commands.Put.{fill_extra_data}
use gostalkd.Net.Commands.Dispatch.{dispatch_cmd}
use gostalkd.Net.Io.{conn_process_io}

abbrev pub is_want_command : ConnState → Bool
is_want_command want_command = true
is_want_command _ = false

abbrev pub is_close : ConnState → Bool
is_close close = true
is_close _ = false

-- commandDataReady and wantCommand, of an open socket
unfoldable pub command_data_ready : ℕ → M Bool
command_data_ready c = do x ← get_conn c; return (is_want_command x.state && positive x.cmd_read)

-- the loop of hConn, with what is done when the rounds are used up; each round takes a line off the
-- bytes that are read
unfoldable pub serve_loop : M (Unit {0}) → ℕ → ℕ → M (Unit {0})
unfolding command_data_ready scan_line_end dispatch_cmd fill_extra_data
serve_loop used_up zero c = used_up
serve_loop used_up (suc fuel) c = do
  some_read ← command_data_ready c
  if not some_read then done else (do
    x ← get_conn c
    let len = scan_line_end x.cmd x.cmd_read
    change_conn c (λ y. record y { cmd_len = len })
    if len == 0 then done else (do dispatch_cmd c; fill_extra_data c; serve_loop used_up fuel c))

-- the loop of hConn; to use up the rounds counts as a panic
abbrev pub serve_commands : ℕ → ℕ → M (Unit {0})
serve_commands = serve_loop panic

-- hConn
unfoldable pub h_conn : ℕ → ℕ → M (Unit {0})
unfolding conn_process_io serve_loop epoll_q_rm_conn conn_close epoll_q_apply
h_conn c which = do
  when (which == b'h') (change_conn c (λ x. record x { half_closed = true }))
  conn_process_io c
  x ← get_conn c
  serve_commands (length x.cmd + 1) c
  y ← get_conn c
  when (is_close y.state) (do epoll_q_rm_conn c; conn_close c)
  epoll_q_apply

-- How accepting a connection ends: without one, with a file of no number, or with a file.
pub data Accepted : Type 0 where
  refused bad_number accepted : Accepted

-- hAccept
unfoldable pub h_accept : Accepted → M (Unit {0})
unfolding new_conn sock_want epoll_q_apply
h_accept refused = done
h_accept bad_number = epoll_q_apply
h_accept accepted = do
  w ← read
  c ← new_conn want_command w.tubes.default_tube w.tubes.default_tube
  elim c [ none ↦ done | some a ↦ (do wanted ← sock_want a b'r'; done) ]
  epoll_q_apply
