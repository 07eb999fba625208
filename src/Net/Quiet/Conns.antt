-- ===== src/Net/Quiet/Conns.antt =====
-- net/conn.go and the replies of net/prot.go leave lines and numbers alone.
use gostalkd.Prelude.{ℕ, zero, suc, Bool, Bytes}
use gostalkd.Machine.Frame.{Quiets, quiet}
use gostalkd.Machine.{ConnState}
use gostalkd.Core.Wal.Quiet.{wal_resv_update-quiet, wal_write-quiet, wal_main-quiet}
use gostalkd.Core.Bury.{put_buried, bury_job}
use gostalkd.Net.Conn.{
  set_soonest_job, soonest_loop, conn_soonest_job, conn_dead_line_soon, conn_ready,
  has_reserved_job, reserved_ticks, coon_tick_at, leave_connes, conn_sched, epoll_q_add, leave_tube,
  remove_waiting_coon, join_tube, enqueue_waiting_conn, remove_this_reserved_job, reserve_job,
  conn_set_producer, conn_set_worker,
}
use gostalkd.Net.Reply.{reply, reply_msg, reply_err, reply_line, reply_job}

put_buried-quiet : (j : ℕ) → Quiets (put_buried j)
unfolding put_buried
put_buried-quiet j = search quiet depth 60 fits 4000

pub bury_job-quiet : (j : ℕ) (b : Bool) → Quiets (bury_job j b)
unfolding bury_job
bury_job-quiet j b =
    search (put_buried-quiet, wal_resv_update-quiet, wal_write-quiet, wal_main-quiet, quiet) depth
      60 fits 4000

set_soonest_job-quiet : (c j : ℕ) → Quiets (set_soonest_job c j)
unfolding set_soonest_job
set_soonest_job-quiet c j = search quiet depth 60 fits 4000

soonest_loop-quiet : (fuel c head j : ℕ) → Quiets (soonest_loop fuel c head j)
unfolding soonest_loop
soonest_loop-quiet zero c head j = search quiet
soonest_loop-quiet (suc fuel) c head j =
    search (soonest_loop-quiet fuel, set_soonest_job-quiet, quiet) depth 60 fits 4000

pub conn_soonest_job-quiet : (c : ℕ) → Quiets (conn_soonest_job c)
unfolding conn_soonest_job
conn_soonest_job-quiet c = search (soonest_loop-quiet, quiet) depth 60 fits 4000

pub conn_dead_line_soon-quiet : (c : ℕ) → Quiets (conn_dead_line_soon c)
unfolding conn_dead_line_soon
conn_dead_line_soon-quiet c = search (conn_soonest_job-quiet, quiet) depth 60 fits 4000

pub conn_ready-quiet : (c : ℕ) → Quiets (conn_ready c)
unfolding conn_ready
conn_ready-quiet c = search quiet depth 60 fits 4000

has_reserved_job-quiet : (c : ℕ) → Quiets (has_reserved_job c)
unfolding has_reserved_job
has_reserved_job-quiet c = search quiet depth 60 fits 4000

reserved_ticks-quiet : (c margin : ℕ) → Quiets (reserved_ticks c margin)
unfolding reserved_ticks
reserved_ticks-quiet c margin =
    search (has_reserved_job-quiet, conn_soonest_job-quiet, quiet) depth 60 fits 4000

coon_tick_at-quiet : (c : ℕ) → Quiets (coon_tick_at c)
unfolding coon_tick_at
coon_tick_at-quiet c = search (reserved_ticks-quiet, quiet) depth 60 fits 4000

pub leave_connes-quiet : (c : ℕ) → Quiets (leave_connes c)
unfolding leave_connes
leave_connes-quiet c = search quiet depth 60 fits 4000

pub conn_sched-quiet : (c : ℕ) → Quiets (conn_sched c)
unfolding conn_sched
conn_sched-quiet c = search (leave_connes-quiet, coon_tick_at-quiet, quiet) depth 60 fits 4000

pub epoll_q_add-quiet : (c rw : ℕ) → Quiets (epoll_q_add c rw)
unfolding epoll_q_add
epoll_q_add-quiet c rw = search (conn_sched-quiet, quiet) depth 60 fits 4000

leave_tube-quiet : (c t : ℕ) → Quiets (leave_tube c t)
unfolding leave_tube
leave_tube-quiet c t = search quiet depth 60 fits 4000

pub remove_waiting_coon-quiet : (c : ℕ) → Quiets (remove_waiting_coon c)
unfolding remove_waiting_coon
remove_waiting_coon-quiet c = search (leave_tube-quiet, quiet) depth 60 fits 4000

join_tube-quiet : (c t : ℕ) → Quiets (join_tube c t)
unfolding join_tube
join_tube-quiet c t = search quiet depth 60 fits 4000

pub enqueue_waiting_conn-quiet : (c : ℕ) → Quiets (enqueue_waiting_conn c)
unfolding enqueue_waiting_conn
enqueue_waiting_conn-quiet c = search (join_tube-quiet, quiet) depth 60 fits 4000

pub remove_this_reserved_job-quiet : (c j : ℕ) → Quiets (remove_this_reserved_job c j)
unfolding remove_this_reserved_job
remove_this_reserved_job-quiet c j = search quiet depth 60 fits 4000

pub reserve_job-quiet : (c j : ℕ) → Quiets (reserve_job c j)
unfolding reserve_job
reserve_job-quiet c j = search (set_soonest_job-quiet, quiet) depth 60 fits 4000

pub conn_set_producer-quiet : (c : ℕ) → Quiets (conn_set_producer c)
unfolding conn_set_producer
conn_set_producer-quiet c = search quiet depth 60 fits 4000

pub conn_set_worker-quiet : (c : ℕ) → Quiets (conn_set_worker c)
unfolding conn_set_worker
conn_set_worker-quiet c = search quiet depth 60 fits 4000

pub reply-quiet :
    (c : ℕ) (line : Bytes) (len : ℕ) (state : ConnState) → Quiets (reply c line len state)
unfolding reply
reply-quiet c line len state = search (epoll_q_add-quiet, quiet) depth 60 fits 4000

pub reply_msg-quiet : (c : ℕ) (m : Bytes) → Quiets (reply_msg c m)
unfolding reply_msg
reply_msg-quiet c m = search (reply-quiet, quiet) depth 60 fits 4000

pub reply_err-quiet : (c : ℕ) (err : Bytes) → Quiets (reply_err c err)
unfolding reply_err
reply_err-quiet c err = search (reply_msg-quiet, quiet) depth 60 fits 4000

pub reply_line-quiet : (c : ℕ) (state : ConnState) (line : Bytes) → Quiets (reply_line c state line)
unfolding reply_line
reply_line-quiet c state line = search (reply-quiet, reply_err-quiet, quiet) depth 60 fits 4000

pub reply_job-quiet : (c j : ℕ) (msg : Bytes) → Quiets (reply_job c j msg)
unfolding reply_job
reply_job-quiet c j msg = search (reply_line-quiet, quiet) depth 60 fits 4000
