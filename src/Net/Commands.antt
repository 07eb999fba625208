-- ===== src/Net/Commands.antt =====
-- net/prot.go: the handlers of the peek commands, and what the handlers of all commands share. A
-- handler gets the connection's address; a slice `c.Cmd[idx:]` with `idx` past the end panics.
pub mod Reserve
pub mod Return
pub mod Kick
pub mod Tubes
pub mod Lists
pub mod Put
pub mod Dispatch
mod Tests
use gostalkd.Prelude.{
  ℕ, zero, suc, ◌+◌, ◌-◌, ◌%◌, Bool, true, false, not, ◌&&◌, ◌||◌, List, [], ◌∷◌, ◌++◌, Option,
  none, some, Bytes, codes, crlf, ltb, leb, ◌==◌, if◌then◌else◌, add64, sub64, add32, mod32, slt,
  positive, length, drop,
}
use gostalkd.Structure.Heap.{Item, take_at}
use gostalkd.Utils.Str.{Parsed, parsed, fmt_error, panics, read_int, str_tol}
use gostalkd.Utils.Str.Decimal.{decimal}
use gostalkd.Core.Job.{
  Job, JobRec, JobState, invalid, ready, buried, delayed, job_find, job_copy, job_free,
}
use gostalkd.Core.Tube.{Tube, Stat}
use gostalkd.Core.Bury.{bury_job}
use gostalkd.Core.Wal.Space.{wal_resv_update}
use gostalkd.Core.Wal.Record.{wal_write, wal_main}
use gostalkd.Machine.{
  World, Conn, wait, send_word, close, Op, op_peek_ready, op_peek_delayed, op_peek_buried,
  op_peek_job, op_reserve, op_reserve_job, op_delete, op_release, op_bury, op_kick, op_kick_job,
  op_touch,
}
use gostalkd.Machine.Actions.{
  on_option, M, ◌>>=◌, ◌>>◌, return, done, panic, read, modify, when, deref, lift, get_job,
  change_job, change_rec, change_jobs, get_tube, change_tube_stat, change_stat, get_conn,
  change_conn, count_op,
}
use gostalkd.Net.Conn.{
  conn_set_worker, conn_dead_line_soon, conn_ready, enqueue_waiting_conn, epoll_q_add, reserve_job,
}
use gostalkd.Net.Reply.{
  reply_msg, reply_err, reply_line, reply_job, msg_bad_format, msg_not_found, msg_found,
  msg_reserved, msg_deadline_soon, msg_deleted, msg_released, msg_buried, msg_kicked, msg_touched,
  msg_internal_error, msg_out_of_memory,
}
use gostalkd.Net.Queue.{
  process_queue, enqueue_job, remove_ready_job, remove_buried_job, remove_delayed_job,
  remove_reserved_job, touch_job, buried_job_p, is_buried, is_delayed,
}
use gostalkd.Net.Kick.{kick_jobs, kick_buried_job, kick_delayed_job}

abbrev pub cmd_from : ℕ → ℕ → M Bytes
cmd_from c idx = do
  x ← get_conn c
  if ltb (length x.cmd) idx then panic else return (drop idx x.cmd)

-- what is done with what has been read behind a name; an error is replied
unfoldable pub on_parsed : {A : Type 0} → ℕ → Parsed (A × ℕ) → (A → ℕ → M (Unit {0})) → M (Unit {0})
unfolding reply_msg
on_parsed c (parsed (a, idx)) k = k a idx
on_parsed c fmt_error k = reply_msg c msg_bad_format
on_parsed c panics k = panic

-- utils.ReadInt(c.Cmd[idx:], &idx); on an error the handler replies BAD_FORMAT and returns
unfoldable pub with_int : ℕ → ℕ → (ℕ → ℕ → M (Unit {0})) → M (Unit {0})
unfolding read_int on_parsed
with_int c idx k = do buf ← cmd_from c idx; on_parsed c (read_int buf idx) k

-- the guard of a command without arguments: its line has the command's length
unfoldable pub with_exact : ℕ → ℕ → M (Unit {0}) → M (Unit {0})
unfolding reply_msg
with_exact c len k = do
  x ← get_conn c
  if not (x.cmd_len == len + 2) then reply_msg c msg_bad_format else k

-- core.JobCopy
unfoldable pub copy_of : Option ℕ → M (Option ℕ)
unfolding job_copy
copy_of j w = let (a, js) = job_copy w.jobs j in some (a, record w { jobs = js })

unfoldable pub reply_found : ℕ → Option ℕ → M (Unit {0})
unfolding reply_msg reply_job
reply_found c none = reply_msg c msg_not_found
reply_found c (some j) = reply_job c j msg_found

-- the job at the head of a heap, copied, or nil
unfoldable pub head_copy : List (Item ℕ) → M (Option ℕ)
unfolding take_at copy_of
head_copy items = on_option (take_at items 0) (return none) (λ r. copy_of (some r.value))

-- dispatchOpPeekReady; "peek-ready" has 10 bytes
unfoldable pub dispatch_op_peek_ready : ℕ → M (Unit {0})
unfolding with_exact head_copy reply_found
dispatch_op_peek_ready c = with_exact c 10 (do
  count_op op_peek_ready
  x ← get_conn c
  t ← deref x.use_tube
  tube ← get_tube t
  j ← head_copy tube.ready
  reply_found c j)

-- dispatchOpPeekDelayed; "peek-delayed" has 12 bytes
unfoldable pub dispatch_op_peek_delayed : ℕ → M (Unit {0})
unfolding with_exact head_copy reply_found
dispatch_op_peek_delayed c = with_exact c 12 (do
  count_op op_peek_delayed
  x ← get_conn c
  t ← deref x.use_tube
  tube ← get_tube t
  j ← head_copy tube.delay
  reply_found c j)

-- dispatchOpPeekBuried; "peek-buried" has 11 bytes
unfoldable pub dispatch_op_peek_buried : ℕ → M (Unit {0})
unfolding with_exact buried_job_p copy_of reply_found
dispatch_op_peek_buried c = with_exact c 11 (do
  count_op op_peek_buried
  x ← get_conn c
  t ← deref x.use_tube
  some_buried ← buried_job_p t
  w ← read
  j ← if some_buried then copy_of (some (w.jobs.links.next (w.tubes.at t).buried)) else return none
  reply_found c j)

-- dispatchOpPeekJob; "peek" has 4 bytes
unfoldable pub dispatch_op_peek_job : ℕ → M (Unit {0})
unfolding with_int copy_of job_find reply_found
dispatch_op_peek_job c =
    with_int c 4
      λ id idx. do count_op op_peek_job; w ← read; j ← copy_of (job_find w.jobs id); reply_found c j
