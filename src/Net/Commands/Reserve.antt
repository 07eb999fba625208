-- ===== src/Net/Commands/Reserve.antt =====
-- net/prot.go: the handlers that reserve jobs, and those of touch and quit.
use gostalkd.Prelude.{ℕ, Bool, true, not, ◌&&◌, Option, none, some, ◌==◌, if◌then◌else◌, add64}
use gostalkd.Utils.Str.{str_tol}
use gostalkd.Core.Job.{JobState, ready, buried, delayed, job_find}
use gostalkd.Machine.{wait, close, op_reserve, op_reserve_job, op_touch}
use gostalkd.Machine.Actions.{
  on_option, M, ◌>>=◌, ◌>>◌, return, read, deref, get_job, change_stat, get_conn, change_conn,
  count_op,
}
use gostalkd.Net.Conn.{
  conn_set_worker, conn_dead_line_soon, conn_ready, enqueue_waiting_conn, epoll_q_add, reserve_job,
}
use gostalkd.Net.Reply.{
  reply_msg, reply_err, reply_job, msg_bad_format, msg_not_found, msg_reserved, msg_deadline_soon,
  msg_touched, msg_internal_error,
}
use gostalkd.Net.Queue.{
  process_queue, remove_ready_job, remove_buried_job, remove_delayed_job, touch_job,
}
use gostalkd.Net.Commands.{cmd_from, with_int}

-- waitForJob
unfoldable pub wait_for_job : ℕ → ℕ → M (Unit {0})
unfolding enqueue_waiting_conn epoll_q_add
wait_for_job c timeout = do
  change_conn c (λ x. record x { state = wait })
  enqueue_waiting_conn c
  change_conn c (λ x. record x { pending_timeout = timeout })
  epoll_q_add c b'h'

-- dispatchOpReserve; `exact` says that the operation is OpReserve, whose name has 7 bytes
unfoldable pub dispatch_op_reserve : ℕ → Bool → ℕ → M (Unit {0})
unfolding conn_set_worker conn_dead_line_soon conn_ready reply_msg wait_for_job process_queue
dispatch_op_reserve c exact timeout = do
  x ← get_conn c
  if exact && not (x.cmd_len == 9) then reply_msg c msg_bad_format else (do
    count_op op_reserve
    conn_set_worker c
    soon ← conn_dead_line_soon c
    some_ready ← if soon then conn_ready c else return true
    if soon && not some_ready
        then reply_msg c msg_deadline_soon
        else (do wait_for_job c timeout; process_queue))

-- dispatchOpReserveTimeout; "reserve-with-timeout" has 20 bytes
unfoldable pub dispatch_op_reserve_timeout : ℕ → M ℕ
unfolding str_tol reply_msg
dispatch_op_reserve_timeout c = do
  buf ← cmd_from c 21
  on_option (str_tol buf) (do reply_msg c msg_bad_format; return 18_446_744_073_709_551_615)
      (λ timeout. return timeout)

-- the removal of dispatchOpReserveJob, by the state of the job; `none` is the default case
unfoldable pub take_for_reserve : ℕ → JobState → M (Option (Option ℕ))
unfolding remove_ready_job remove_buried_job remove_delayed_job
take_for_reserve j ready = do a ← remove_ready_job (some j); return (some a)
take_for_reserve j buried = do a ← remove_buried_job (some j); return (some a)
take_for_reserve j delayed = do a ← remove_delayed_job (some j); return (some a)
take_for_reserve j _ = return none

-- dispatchOpReserveJob; "reserve-job" has 11 bytes. A job that its list does not give back is nil
-- from then on, and connReserveJob panics on it.
unfoldable pub dispatch_op_reserve_job : ℕ → M (Unit {0})
unfolding with_int job_find take_for_reserve reply_msg reply_err conn_set_worker reserve_job
    reply_job
dispatch_op_reserve_job c = with_int c 11 λ id idx. do
  count_op op_reserve_job
  w ← read
  on_option (job_find w.jobs id) (reply_msg c msg_not_found) (λ j. (do
    x ← get_job j
    taken ← take_for_reserve j x.r.state
    on_option taken (reply_err c msg_internal_error) (λ a. (do
      conn_set_worker c
      change_stat (λ s. record s { reserved_ct = add64 s.reserved_ct 1 })
      b ← deref a
      reserve_job c b
      reply_job c b msg_reserved))))

-- dispatchOpTouch; it reads from byte 7 although "touch" has 5
unfoldable pub dispatch_op_touch : ℕ → M (Unit {0})
unfolding with_int job_find touch_job reply_msg
dispatch_op_touch c = with_int c 7 λ id idx. do
  count_op op_touch
  w ← read
  touched ← touch_job c (job_find w.jobs id)
  if touched then reply_msg c msg_touched else reply_msg c msg_not_found

-- dispatchOpQuit
unfoldable pub dispatch_op_quit : ℕ → M (Unit {0})
dispatch_op_quit c = change_conn c (λ x. record x { state = close })
