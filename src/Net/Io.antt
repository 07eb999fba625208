-- ===== src/Net/Io.antt =====
-- net/serv.go: the input and output of a connection: connProcessIO, a function for each state, and
-- connWantCommand. What reading and writing gives are the answers `receiving` and `sending`; a slice
-- past a body's length is within its capacity up to `spare`.
pub mod EndLine
mod Tests
pub mod Send
pub mod Data
use gostalkd.Prelude.{
  ℕ, zero, suc, ◌+◌, Bool, true, false, not, ◌&&◌, ◌||◌, ◌++◌, none, some, Bytes, ◌==◌,
  if◌then◌else◌, add64, sub64, slt, positive, length, take,
}
use gostalkd.Core.Job.{is_copy, job_free}
use gostalkd.Machine.{
  ConnState, want_command, want_data, send_job, send_word, wait, bitbucket, close, want_end_line,
  Receipt, read_failed, read_eof, read_bytes, Sending, write_failed, wrote,
}
use gostalkd.Machine.Actions.{
  on_option, M, ◌>>=◌, ◌>>◌, return, done, panic, read, modify, when, deref, get_job, change_jobs,
  get_conn, change_conn,
}
use gostalkd.Net.Protocol.{scan_line_end}
use gostalkd.Net.Conn.{epoll_q_add, remove_waiting_coon, minus_one}
use gostalkd.Net.Watch.{new_conn}
use gostalkd.Net.Reply.{reply, reply_msg, line_buf_size, msg_bad_format, msg_timed_out}
use gostalkd.Net.Close.{sock_want, epoll_q_apply, epoll_q_rm_conn, conn_close}
use gostalkd.Net.Commands.Put.{fill_extra_data, maybe_enqueue_in_coming_job, min_int}
use gostalkd.Net.Commands.Dispatch.{dispatch_cmd}

-- the last part of connWantCommand: what the connection sends is forgotten
unfoldable pub forget_out_job : ℕ → M (Unit {0})
unfolding job_free
forget_out_job c = do
  x ← get_conn c
  on_option x.out_job done
      (λ j. (do y ← get_job j; when (is_copy y.r.state) (change_jobs (λ js. job_free js (some j)))))
  change_conn c (λ z. record z { out_job = none; reply_sent = 0; state = want_command })

-- connWantCommand
unfoldable pub conn_want_command : ℕ → M (Unit {0})
unfolding epoll_q_add forget_out_job
conn_want_command c = do epoll_q_add c b'r'; forget_out_job c

-- the Read of a socket into a new slice of `size` bytes; a negative size panics
unfoldable pub sock_read : ℕ → M Receipt
sock_read size = do
  w ← read
  if slt size 0 then panic else (do
    modify (λ v. record v { requests = v.requests + 1 })
    elim (w.outside.receiving w.requests size) [
      | read_failed ↦ return read_failed
      | read_eof ↦ return read_eof
      | read_bytes bs ↦ return (read_bytes (take size bs))
    ])

-- the Write of a number of bytes to a socket
unfoldable pub sock_write : ℕ → M Sending
sock_write size = do
  w ← read
  modify (λ v. record v { requests = v.requests + 1 })
  return (w.outside.sending w.requests size)

-- the number of bytes of a slice `s[a : b]` of a slice of the given capacity
unfoldable pub slice_size : ℕ → ℕ → ℕ → M ℕ
slice_size a b capacity = if slt b a || slt capacity b || slt a 0 then panic else return (sub64 b a)

abbrev pub close_it : ℕ → M (Unit {0})
close_it c = change_conn c (λ x. record x { state = close })

-- what the states of reading a command do with the bytes they read
unfoldable pub append_cmd : ℕ → Bytes → M ℕ
unfolding scan_line_end
append_cmd c bs = do
  change_conn c (λ x. record x { cmd = x.cmd ++ bs; cmd_read = add64 x.cmd_read (length bs) })
  x ← get_conn c
  let len = scan_line_end x.cmd x.cmd_read
  change_conn c (λ y. record y { cmd_len = len })
  return len

-- the end of the case StateWantCommand, with the length of the line
unfoldable pub command_read : ℕ → ℕ → M (Unit {0})
command_read c len = do
  x ← get_conn c
  when (len == 0 && x.cmd_read == line_buf_size)
      (change_conn c (λ z. record z { cmd_read = 0; state = want_end_line }))

-- connProcessIO, the case StateWantCommand
unfoldable pub read_command : ℕ → M (Unit {0})
unfolding sock_read append_cmd command_read
read_command c = do
  x ← get_conn c
  r ← sock_read (sub64 line_buf_size x.cmd_read)
  elim r [
    | read_failed ↦ done
    | read_eof ↦ close_it c
    | read_bytes bs ↦ if length bs == 0 then close_it c else (append_cmd c bs >>= command_read c)
  ]

-- the end of the case StateWantEndLine, with the length of the line
unfoldable pub end_line_read : ℕ → ℕ → M (Unit {0})
unfolding reply_msg fill_extra_data
end_line_read c len = do
  x ← get_conn c
  if not (len == 0)
      then (do reply_msg c msg_bad_format; fill_extra_data c)
      else when (x.cmd_read == line_buf_size) (change_conn c (λ z. record z { cmd_read = 0 }))

-- connProcessIO, the case StateWantEndLine
unfoldable pub read_end_line : ℕ → M (Unit {0})
unfolding sock_read append_cmd end_line_read
read_end_line c = do
  x ← get_conn c
  r ← sock_read (sub64 line_buf_size x.cmd_read)
  elim r [
    | read_failed ↦ done
    | read_eof ↦ close_it c
    | read_bytes bs ↦ append_cmd c bs >>= end_line_read c
  ]

-- BucketBufSize
abbrev pub bucket_buf_size : ℕ
bucket_buf_size = 1024

-- connProcessIO, the case StateBitbucket
unfoldable pub read_bucket : ℕ → M (Unit {0})
unfolding sock_read reply
read_bucket c = do
  x ← get_conn c
  r ← sock_read (min_int x.in_job_read bucket_buf_size)
  elim r [
    | read_failed ↦ done
    | read_eof ↦ close_it c
    | read_bytes bs ↦ (do
      change_conn c (λ y. record y { in_job_read = sub64 y.in_job_read (length bs) })
      y ← get_conn c
      when (y.in_job_read == 0) (reply c y.reply y.reply_len send_word))
  ]

-- connProcessIO, the case StateWantData: the bytes are counted, and not kept
unfoldable pub read_data : ℕ → M (Unit {0})
unfolding sock_read maybe_enqueue_in_coming_job
read_data c = do
  x ← get_conn c
  j ← deref x.in_job
  y ← get_job j
  r ← sock_read (sub64 y.r.body_size x.in_job_read)
  elim r [
    | read_failed ↦ done
    | read_eof ↦ close_it c
    | read_bytes bs ↦ (do
      change_conn c (λ z. record z { in_job_read = add64 z.in_job_read (length bs) })
      maybe_enqueue_in_coming_job c)
  ]

-- connProcessIO, the case StateSendWord
unfoldable pub write_word : ℕ → M (Unit {0})
unfolding slice_size sock_write conn_want_command
write_word c = do
  x ← get_conn c
  n ← slice_size x.reply_sent (sub64 x.reply_len x.reply_sent) (length x.reply)
  r ← sock_write n
  elim r [
    | write_failed ↦ done
    | wrote m ↦ if m == 0 then close_it c else (do
      change_conn c (λ y. record y { reply_sent = add64 y.reply_sent m })
      y ← get_conn c
      when (y.reply_sent == y.reply_len) (conn_want_command c))
  ]

-- the part of the case StateSendJob after a write of `m` bytes
unfoldable pub count_sent : ℕ → ℕ → M (Unit {0})
unfolding conn_want_command
count_sent c m = do
  change_conn c (λ y. record y { reply_sent = add64 y.reply_sent m })
  x ← get_conn c
  when (not (slt x.reply_sent x.reply_len)) (
      change_conn c (λ y. record y {
        out_job_sent = add64 y.out_job_sent (sub64 y.reply_sent y.reply_len);
        reply_sent = y.reply_len;
      }))
  y ← get_conn c
  j ← deref y.out_job
  z ← get_job j
  when (y.out_job_sent == z.r.body_size) (conn_want_command c)

-- connProcessIO, the case StateSendJob
unfoldable pub write_job : ℕ → M (Unit {0})
unfolding slice_size sock_write count_sent
write_job c = do
  x ← get_conn c
  n ← slice_size x.reply_sent (sub64 x.reply_len x.reply_sent) (length x.reply)
  j ← deref x.out_job
  y ← get_job j
  w ← read
  m ←
      slice_size x.out_job_sent (sub64 y.r.body_size x.out_job_sent)
        (length y.body + w.outside.spare j)
  r ← sock_write (n + m)
  elim r [ write_failed ↦ done | wrote k ↦ if k == 0 then close_it c else count_sent c k ]

-- connProcessIO, the case StateWait
unfoldable pub end_wait : ℕ → M (Unit {0})
unfolding remove_waiting_coon reply_msg
end_wait c = do
  x ← get_conn c
  when x.half_closed (do
    change_conn c (λ y. record y { pending_timeout = minus_one })
    remove_waiting_coon c
    reply_msg c msg_timed_out)

-- the switch of connProcessIO
unfoldable pub process_state : ℕ → ConnState → M (Unit {0})
unfolding read_command read_end_line read_bucket read_data write_word write_job end_wait
process_state c want_command = read_command c
process_state c want_end_line = read_end_line c
process_state c bitbucket = read_bucket c
process_state c want_data = read_data c
process_state c send_word = write_word c
process_state c send_job = write_job c
process_state c wait = end_wait c
process_state c close = done

-- connProcessIO
unfoldable pub conn_process_io : ℕ → M (Unit {0})
unfolding process_state
conn_process_io c = do x ← get_conn c; process_state c x.state
