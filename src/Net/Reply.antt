-- ===== src/Net/Reply.antt =====
-- net/prot.go: replies. What is logged beside a reply is left out.
use gostalkd.Prelude.{
  ℕ, ◌∷◌, ◌++◌, some, Bytes, codes, crlf, leb, ltb, if◌then◌else◌, sub64, half64, length,
}
use gostalkd.Utils.Str.Decimal.{decimal}
use gostalkd.Machine.{ConnState, send_word, send_job}
use gostalkd.Machine.Actions.{M, ◌>>=◌, ◌>>◌, when, get_job, change_conn}
use gostalkd.Net.Conn.{epoll_q_add}

-- The messages of constant.go.
abbrev pub msg_not_found : Bytes
msg_not_found = codes "NOT_FOUND" ++ crlf

abbrev pub msg_found : Bytes
msg_found = codes "FOUND"

abbrev pub msg_reserved : Bytes
msg_reserved = codes "RESERVED"

abbrev pub msg_deadline_soon : Bytes
msg_deadline_soon = codes "DEADLINE_SOON" ++ crlf

abbrev pub msg_timed_out : Bytes
msg_timed_out = codes "TIMED_OUT" ++ crlf

abbrev pub msg_deleted : Bytes
msg_deleted = codes "DELETED" ++ crlf

abbrev pub msg_released : Bytes
msg_released = codes "RELEASED" ++ crlf

abbrev pub msg_buried : Bytes
msg_buried = codes "BURIED" ++ crlf

abbrev pub msg_kicked : Bytes
msg_kicked = codes "KICKED" ++ crlf

abbrev pub msg_touched : Bytes
msg_touched = codes "TOUCHED" ++ crlf

abbrev pub msg_not_ignored : Bytes
msg_not_ignored = codes "NOT_IGNORED" ++ crlf

abbrev pub msg_out_of_memory : Bytes
msg_out_of_memory = codes "OUT_OF_MEMORY" ++ crlf

abbrev pub msg_internal_error : Bytes
msg_internal_error = codes "INTERNAL_ERROR" ++ crlf

abbrev pub msg_draining : Bytes
msg_draining = codes "DRAINING" ++ crlf

abbrev pub msg_bad_format : Bytes
msg_bad_format = codes "BAD_FORMAT" ++ crlf

abbrev pub msg_unknown_command : Bytes
msg_unknown_command = codes "UNKNOWN_COMMAND" ++ crlf

abbrev pub msg_expected_crlf : Bytes
msg_expected_crlf = codes "EXPECTED_CRLF" ++ crlf

abbrev pub msg_job_too_big : Bytes
msg_job_too_big = codes "JOB_TOO_BIG" ++ crlf

-- reply, of a connection that is not nil
unfoldable pub reply : ℕ → Bytes → ℕ → ConnState → M (Unit {0})
unfolding epoll_q_add
reply c line len state = do
  epoll_q_add c b'w'
  change_conn c (λ x. record x { reply = line; reply_len = len; reply_sent = 0; state = state })

-- replyMsg
unfoldable pub reply_msg : ℕ → Bytes → M (Unit {0})
unfolding reply
reply_msg c m = reply c m (length m) send_word

-- replyErr
unfoldable pub reply_err : ℕ → Bytes → M (Unit {0})
unfolding reply_msg
reply_err c err = reply_msg c (codes "server error: " ++ err)

-- LineBufSize
abbrev pub line_buf_size : ℕ
line_buf_size = 224

-- replyLine, of a line that is formatted already; a line that is too long is replied all the same
unfoldable pub reply_line : ℕ → ConnState → Bytes → M (Unit {0})
unfolding reply reply_err
reply_line c state line = do
  change_conn c (λ x. record x { reply_buf = line })
  when (leb line_buf_size (length line)) (reply_err c msg_internal_error)
  reply c line (length line) state

-- `%d` of an int64
abbrev pub print_int : ℕ → Bytes
print_int n = if ltb n half64 then decimal n else b'-' ∷ decimal (sub64 0 n)

-- replyJob
unfoldable pub reply_job : ℕ → ℕ → Bytes → M (Unit {0})
unfolding reply_line
reply_job c j msg = do
  change_conn c (λ x. record x { out_job = some j; out_job_sent = 0 })
  x ← get_job j
  reply_line c send_job
      (msg ++ b' ' ∷ (decimal x.r.id ++ b' ' ∷ (print_int (sub64 x.r.body_size 2) ++ crlf)))
