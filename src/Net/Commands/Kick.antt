-- ===== src/Net/Commands/Kick.antt =====
-- net/prot.go: the handlers of kick and kick-job.
use gostalkd.Prelude.{ℕ, false, not, ◌&&◌, ◌||◌, ◌++◌, codes, crlf, if◌then◌else◌}
use gostalkd.Utils.Str.{str_tol}
use gostalkd.Utils.Str.Decimal.{decimal}
use gostalkd.Core.Job.{job_find}
use gostalkd.Machine.{send_word, op_kick, op_kick_job}
use gostalkd.Machine.Actions.{
  on_option, M, ◌>>=◌, ◌>>◌, return, read, deref, get_job, get_conn, count_op,
}
use gostalkd.Net.Reply.{reply_msg, reply_line, msg_bad_format, msg_not_found, msg_kicked}
use gostalkd.Net.Queue.{is_buried, is_delayed}
use gostalkd.Net.Kick.{kick_jobs, kick_buried_job, kick_delayed_job}
use gostalkd.Net.Commands.{cmd_from, with_int}

-- dispatchOpKick; "kick" has 4 bytes, and StrTol accepts no space before the number
unfoldable pub dispatch_op_kick : ℕ → M (Unit {0})
unfolding str_tol reply_msg kick_jobs reply_line
dispatch_op_kick c = do
  buf ← cmd_from c 4
  on_option (str_tol buf) (reply_msg c msg_bad_format) (λ count. (do
    count_op op_kick
    x ← get_conn c
    t ← deref x.use_tube
    i ← kick_jobs t count
    reply_line c send_word (codes "KICKED " ++ (decimal i ++ crlf))))

-- dispatchOpKickJob; it reads from byte 7 although "kick-job" has 8
unfoldable pub dispatch_op_kick_job : ℕ → M (Unit {0})
unfolding with_int job_find kick_buried_job kick_delayed_job reply_msg
dispatch_op_kick_job c = with_int c 7 λ id idx. do
  count_op op_kick_job
  w ← read
  on_option (job_find w.jobs id) (reply_msg c msg_not_found) (λ j. (do
    x ← get_job j
    first ← if is_buried x.r.state then kick_buried_job j else return false
    y ← get_job j
    second ← if not first && is_delayed y.r.state then kick_delayed_job j else return false
    if first || second then reply_msg c msg_kicked else reply_msg c msg_not_found))
