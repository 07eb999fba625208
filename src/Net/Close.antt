-- ===== src/Net/Close.antt =====
-- net/conn.go: connTimeout, enqueueReservedJobs and connClose; net/prot.go: EpollQApply and
-- EpollQRmConn. Whether the event queue takes a request is the answer `wanting`.
pub mod Chain
mod Tests
use gostalkd.Prelude.{
  [], ◌∷◌, ◌++◌, ℕ, zero, suc, ◌+◌, ◌*◌, Bool, false, not, ◌&&◌, Option, none, some, ◌==◌,
  if◌then◌else◌, add64, add32, sub64, slt,
}
use gostalkd.Core.Bury.{bury_job}
use gostalkd.Core.Links.{list_remove}
use gostalkd.Core.Wal.Files.{same_address}
use gostalkd.Machine.Actions.{
  on_option, M, ◌>>=◌, ◌>>◌, return, done, panic, read, modify, when, deref, now, get_job,
  change_rec, change_links, change_tube, change_tube_stat, change_stat, get_conn, change_conn,
  while_some,
}
use gostalkd.Net.Conn.{
  conn_dead_line_soon, conn_soonest_job, conn_sched, leave_connes, has_reserved_job,
  remove_this_reserved_job, remove_waiting_coon, minus_one,
}
use gostalkd.Net.Watch.{watch_clear}
use gostalkd.Net.Reply.{reply_msg, msg_deadline_soon, msg_timed_out}
use gostalkd.Net.Queue.{enqueue_job}
use gostalkd.Net.Commands.{copy_of}

-- sockWant, of a connection's socket and a byte
unfoldable pub sock_want : ℕ → ℕ → M Bool
sock_want c byte = do
  w ← read
  modify (λ v. record v { requests = v.requests + 1; asked = v.asked ++ (c, byte) ∷ [] })
  return (w.outside.wanting w.requests)

-- the job of the next round of the loop of connTimeout, if there is one
unfoldable pub next_expired : ℕ → M (Option ℕ)
unfolding conn_soonest_job
next_expired c = do
  j ← conn_soonest_job c
  on_option j (return none)
      (λ a. (do x ← get_job a; t ← now; return (if slt x.r.deadline_at t then some a else none)))

-- the body of that loop
unfoldable pub expire : ℕ → ℕ → M (Unit {0})
unfolding copy_of remove_this_reserved_job enqueue_job bury_job conn_sched
expire c j = do
  x ← get_conn c
  when (same_address (some j) x.out_job)
      (do a ← copy_of x.out_job; change_conn c (λ y. record y { out_job = a }))
  modify (λ w. record w { timeout_ct = add64 w.timeout_ct 1 })
  change_rec j (λ r. record r { timeout_ct = add32 r.timeout_ct 1 })
  remove_this_reserved_job c j
  r ← enqueue_job j 0 false
  when (slt r 1) (do buried ← bury_job j false; done)
  conn_sched c

-- connTimeout; a job whose time is over leaves the connection, which has no more jobs than there
-- are addresses
unfoldable pub conn_timeout : ℕ → M (Unit {0})
unfolding conn_dead_line_soon while_some next_expired expire remove_waiting_coon reply_msg
conn_timeout c = do
  x ← get_conn c
  soon ← if x.is_waiting then conn_dead_line_soon c else return false
  w ← read
  while_some (w.jobs.fresh + 1) (next_expired c) (expire c)
  y ← get_conn c
  if soon
      then (do remove_waiting_coon c; reply_msg c msg_deadline_soon)
      else if y.is_waiting && not (slt y.pending_timeout 0)
      then (do
        change_conn c (λ z. record z { pending_timeout = minus_one })
        remove_waiting_coon c
        reply_msg c msg_timed_out)
      else done

-- the first job that a connection has reserved
unfoldable pub first_reserved : ℕ → M (Option ℕ)
unfolding has_reserved_job
first_reserved c = do
  some_reserved ← has_reserved_job c
  w ← read
  return (if some_reserved then some (w.jobs.links.next (w.conn c).reserved_jobs) else none)

-- the body of the loop of enqueueReservedJobs
unfoldable pub give_back : ℕ → ℕ → M (Unit {0})
unfolding list_remove enqueue_job bury_job
give_back c a = do
  w ← read
  let (found, l) = list_remove w.jobs.links (some a)
  change_links (λ _. l)
  j ← deref found
  r ← enqueue_job j 0 false
  when (r == 0) (do buried ← bury_job j false; done)
  change_stat (λ s. record s { reserved_ct = sub64 s.reserved_ct 1 })
  x ← get_job j
  t ← deref x.tube
  change_tube_stat t (λ s. record s { reserved_ct = sub64 s.reserved_ct 1 })
  change_conn c (λ y. record y { soonest_job = none })

-- enqueueReservedJobs
unfoldable pub enqueue_reserved_jobs : ℕ → M (Unit {0})
unfolding while_some first_reserved give_back
enqueue_reserved_jobs c = do
  w ← read
  while_some (w.jobs.fresh + 1) (first_reserved c) (give_back c)

-- connClose; the sockets that it closes are not modelled
unfoldable pub conn_close : ℕ → M (Unit {0})
unfolding sock_want remove_waiting_coon has_reserved_job enqueue_reserved_jobs watch_clear
    leave_connes
conn_close c = do
  wanted ← sock_want c 0
  when wanted (do
    change_conn c (λ y. record y { in_job = none; out_job = none; in_job_read = 0 })
    x ← get_conn c
    when x.is_producer (modify (λ w. record w { cur_producer_ct = sub64 w.cur_producer_ct 1 }))
    when x.is_worker (modify (λ w. record w { cur_worker_ct = sub64 w.cur_worker_ct 1 }))
    modify (λ w. record w { cur_conn_ct = sub64 w.cur_conn_ct 1 })
    remove_waiting_coon c
    some_reserved ← has_reserved_job c
    when some_reserved (enqueue_reserved_jobs c)
    watch_clear c
    y ← get_conn c
    t ← deref y.use_tube
    change_tube t (λ z. record z { using_ct = sub64 z.using_ct 1 })
    change_conn c (λ z. record z { use_tube = none })
    leave_connes c)

-- the head of epollQ, taken off
unfoldable pub take_queued : M (Option ℕ)
take_queued = do
  w ← read
  on_option w.epoll_q (return none) (λ c. (do
    modify (λ v. record v { epoll_q = (w.conn c).next })
    change_conn c (λ x. record x { next = none })
    return (some c)))

-- the body of the loop of EpollQApply
unfoldable pub apply_one : ℕ → M (Unit {0})
unfolding sock_want conn_close
apply_one c = do x ← get_conn c; wanted ← sock_want c x.rw; when (not wanted) (conn_close c)

-- EpollQApply, in at most two rounds more than twice the connections
unfoldable pub epoll_q_apply : M (Unit {0})
unfolding while_some take_queued apply_one
epoll_q_apply = do w ← read; while_some (2 * w.fresh_conn + 2) take_queued apply_one

-- the loop of EpollQRmConn, with the list `newhead`
unfoldable pub rm_loop : ℕ → ℕ → Option ℕ → M (Option ℕ)
unfolding take_queued
rm_loop zero c newhead = panic
rm_loop (suc fuel) c newhead = do
  head ← take_queued
  on_option head (return newhead) (λ x. (do
    let here = x == c
    when (not here) (change_conn x (λ y. record y { next = newhead }))
    rm_loop fuel c (if here then newhead else some x)))

-- EpollQRmConn
unfoldable pub epoll_q_rm_conn : ℕ → M (Unit {0})
unfolding rm_loop
epoll_q_rm_conn c = do
  w ← read
  head ← rm_loop (2 * w.fresh_conn + 2) c none
  modify (λ v. record v { epoll_q = head })
