-- ===== src/Net/Conn.antt =====
-- net/conn.go and the connection's part of net/prot.go: the soonest job of a connection, its place
-- in the heap of connections, and its waiting on tubes.
use gostalkd.Prelude.{
  ℕ, zero, suc, ◌+◌, Bool, true, false, not, ◌||◌, List, [], ◌∷◌, Option, none, some, ltb, ◌==◌,
  if◌then◌else◌, add64, sub64, add32, slt, positive, length, ==_iff,
}
use gostalkd.Structure.Heap.{push, remove}
use gostalkd.Structure.Ms
use gostalkd.Structure.Ms.{Ms, Eq, Events}
use gostalkd.Core.Job.{reserved}
use gostalkd.Core.Tube.{Tube}
use gostalkd.Core.Links.{list_empty, list_remove, list_insert}
use gostalkd.Machine.{Conn}
use gostalkd.Machine.Actions.{
  on_option, M, ◌>>=◌, ◌>>◌, return, done, panic, read, modify, when, deref, lift, now, get_job,
  change_job, change_rec, change_links, change_tube, change_tube_stat, change_stat, get_conn,
  change_conn, for_each,
}

-- Pointers are equal if their addresses are.
instance abbrev pub address_eq : Eq ℕ
address_eq = record { is_same = ◌==◌; is_same_iff = ==_iff }

-- The list of the connections that wait on a tube has no callbacks.
abbrev pub silent : Events ℕ (Unit {0})
silent = record { on_insert = none; on_remove = none }

-- setSoonestJob and connSetSoonestJob
unfoldable pub set_soonest_job : ℕ → ℕ → M (Unit {0})
set_soonest_job c j = do
  x ← get_conn c
  y ← get_job j
  on_option x.soonest_job (change_conn c (λ k. record k { soonest_job = some j })) (λ s. (do
    z ← get_job s
    when (slt y.r.deadline_at z.r.deadline_at)
        (change_conn c (λ k. record k { soonest_job = some j }))))

-- the loop of connSoonestJob from the job `j` to the head of the list
unfoldable pub soonest_loop : ℕ → ℕ → ℕ → ℕ → M (Unit {0})
unfolding set_soonest_job
soonest_loop zero c head j = panic
soonest_loop (suc fuel) c head j =
    if j == head
    then done
    else (do set_soonest_job c j; w ← read; soonest_loop fuel c head (w.jobs.links.next j))

-- connSoonestJob; a list has no more jobs than there are addresses
unfoldable pub conn_soonest_job : ℕ → M (Option ℕ)
unfolding soonest_loop
conn_soonest_job c = do
  x ← get_conn c
  on_option x.soonest_job
      (do
        w ← read
        soonest_loop (w.jobs.fresh + 1) c x.reserved_jobs (w.jobs.links.next x.reserved_jobs)
        y ← get_conn c
        return y.soonest_job)
      (λ j. return (some j))

abbrev pub safety_margin : ℕ
safety_margin = 1_000_000_000

-- connDeadLineSoon
unfoldable pub conn_dead_line_soon : ℕ → M Bool
unfolding conn_soonest_job
conn_dead_line_soon c = do
  t ← now
  j ← conn_soonest_job c
  on_option j (return false)
      (λ a. (do x ← get_job a; return (not (slt t (sub64 x.r.deadline_at safety_margin)))))

any_ready : (ℕ → Tube) → List ℕ → Bool
any_ready at [] = false
any_ready at (t ∷ ts) = ltb 0 (length (at t).ready) || any_ready at ts

-- connReady
unfoldable pub conn_ready : ℕ → M Bool
unfolding any_ready
conn_ready c = do w ← read; return (any_ready w.tubes.at (w.conn c).watch.items)

-- hasReservedJob
unfoldable pub has_reserved_job : ℕ → M Bool
unfolding list_empty
has_reserved_job c = do w ← read; return (not (list_empty w.jobs.links (w.conn c).reserved_jobs))

abbrev pub max_int64 : ℕ
max_int64 = 9_223_372_036_854_775_807

-- the part of coonTickAt for reserved jobs: the time left, and whether there is a time at all
unfoldable pub reserved_ticks : ℕ → ℕ → M (ℕ × Bool)
reserved_ticks c margin = do
  some_reserved ← has_reserved_job c
  if not some_reserved then return (max_int64, false) else (do
    j ← conn_soonest_job c
    a ← deref j
    x ← get_job a
    t ← now
    return (sub64 (sub64 x.r.deadline_at t) margin, true))

-- coonTickAt
unfoldable pub coon_tick_at : ℕ → M ℕ
unfolding reserved_ticks has_reserved_job conn_soonest_job
coon_tick_at c = do
  x ← get_conn c
  (t, timed) ← reserved_ticks c (if x.is_waiting then safety_margin else 0)
  w ← read
  let pending = not (slt x.pending_timeout 0)
  let t' = if pending then w.outside.min_seconds t x.pending_timeout else t
  if timed || pending then (do u ← now; return (add64 u t')) else return 0

-- connLess, on the connections at two addresses
unfoldable pub conn_less : (ℕ → Conn) → ℕ → ℕ → Bool
conn_less at a b = slt (at a).tick_at (at b).tick_at

-- connSetPos
unfoldable pub conn_set_pos : ℕ → ℕ → M (Unit {0})
conn_set_pos c i = change_conn c (λ x. record x { tick_pos = i })

-- taking a connection out of the heap, as connSched and connClose do: by its TickPos
unfoldable pub leave_connes : ℕ → M (Unit {0})
unfolding remove conn_less
leave_connes c = do
  x ← get_conn c
  when x.in_coons (do
    w ← read
    (item, rest) ← lift (remove (conn_less w.conn) w.connes x.tick_pos)
    modify (λ v. record v { connes = rest })
    change_conn c (λ y. record y { in_coons = false }))

-- connSched
unfoldable pub conn_sched : ℕ → M (Unit {0})
unfolding leave_connes coon_tick_at push conn_less
conn_sched c = do
  leave_connes c
  t ← coon_tick_at c
  change_conn c (λ y. record y { tick_at = t })
  when (positive t) (do
    w ← read
    grown ← lift (push (conn_less w.conn) w.connes (record { value = c; index = 0 }))
    modify (λ v. record v { connes = grown })
    change_conn c (λ y. record y { in_coons = true }))

-- EpollQAdd
unfoldable pub epoll_q_add : ℕ → ℕ → M (Unit {0})
unfolding conn_sched
epoll_q_add c rw = do
  change_conn c (λ x. record x { rw = rw })
  conn_sched c
  w ← read
  change_conn c (λ x. record x { next = w.epoll_q })
  modify (λ v. record v { epoll_q = some c })

-- one tube that a connection stops waiting on
unfoldable pub leave_tube : ℕ → ℕ → M (Unit {0})
leave_tube c t = do
  change_tube_stat t (λ s. record s { waiting_ct = sub64 s.waiting_ct 1 })
  change_tube t (λ x. record x { waiting_conns = (Ms.remove silent x.waiting_conns c tt).1 })

-- removeWaitingCoon
unfoldable pub remove_waiting_coon : ℕ → M (Unit {0})
unfolding leave_tube for_each
remove_waiting_coon c = do
  x ← get_conn c
  when x.is_waiting (do
    change_conn c (λ y. record y { is_waiting = false })
    change_stat (λ s. record s { waiting_ct = sub64 s.waiting_ct 1 })
    for_each x.watch.items (leave_tube c))

-- one tube that a connection begins to wait on
unfoldable pub join_tube : ℕ → ℕ → M (Unit {0})
join_tube c t = do
  change_tube_stat t (λ s. record s { waiting_ct = add64 s.waiting_ct 1 })
  change_tube t (λ x. record x { waiting_conns = (Ms.append silent x.waiting_conns (c ∷ []) tt).1 })

-- enqueueWaitingConn
unfoldable pub enqueue_waiting_conn : ℕ → M (Unit {0})
unfolding join_tube for_each
enqueue_waiting_conn c = do
  change_conn c (λ y. record y { is_waiting = true })
  change_stat (λ s. record s { waiting_ct = add64 s.waiting_ct 1 })
  x ← get_conn c
  for_each x.watch.items (join_tube c)

-- removeThisReservedJob, of a job that is not nil
unfoldable pub remove_this_reserved_job : ℕ → ℕ → M (Unit {0})
unfolding list_remove
remove_this_reserved_job c j = do
  change_links (λ l. (list_remove l (some j)).1)
  change_stat (λ s. record s { reserved_ct = sub64 s.reserved_ct 1 })
  x ← get_job j
  t ← deref x.tube
  change_tube_stat t (λ s. record s { reserved_ct = sub64 s.reserved_ct 1 })
  change_job j (λ y. record y { reservoir = none })
  change_conn c (λ y. record y { soonest_job = none })

abbrev pub minus_one : ℕ
minus_one = 18_446_744_073_709_551_615

-- reserveJob and connReserveJob
unfoldable pub reserve_job : ℕ → ℕ → M (Unit {0})
unfolding list_insert set_soonest_job
reserve_job c j = do
  x ← get_job j
  t ← deref x.tube
  change_tube_stat t (λ s. record s { reserved_ct = add64 s.reserved_ct 1 })
  change_rec j (λ r. record r { reserve_ct = add32 r.reserve_ct 1 })
  u ← now
  change_rec j (λ r. record r { deadline_at = add64 u r.ttr; state = reserved })
  k ← get_conn c
  change_links (λ l. list_insert l k.reserved_jobs j)
  change_job j (λ y. record y { reservoir = some c })
  change_conn c (λ y. record y { pending_timeout = minus_one })
  set_soonest_job c j

-- connSetProducer
unfoldable pub conn_set_producer : ℕ → M (Unit {0})
conn_set_producer c = do
  x ← get_conn c
  when (not x.is_producer) (do
    change_conn c (λ y. record y { is_producer = true })
    modify (λ w. record w { cur_producer_ct = add64 w.cur_producer_ct 1 }))

-- connSetWorker
unfoldable pub conn_set_worker : ℕ → M (Unit {0})
conn_set_worker c = do
  x ← get_conn c
  when (not x.is_worker) (do
    change_conn c (λ y. record y { is_worker = true })
    modify (λ w. record w { cur_worker_ct = add64 w.cur_worker_ct 1 }))
