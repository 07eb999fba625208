-- ===== src/Net/Queue.antt =====
-- net/prot.go: putting jobs into the heaps of their tubes, taking them out, and giving them to the
-- connections that wait.
mod Heaps
mod Buried
mod Touched
mod Tests
use gostalkd.Prelude.{
  ℕ, ◌+◌, Bool, true, false, not, ◌&&◌, List, [], ◌∷◌, Option, none, some, ltb, if◌then◌else◌,
  add64, sub64, positive, length,
}
use gostalkd.Structure.Heap.{push, remove}
use gostalkd.Structure.Ms
use gostalkd.Structure.Ms.{Ms}
use gostalkd.Core.Job.{JobState, ready, reserved, buried, delayed, job_pri_less, job_delay_less}
use gostalkd.Core.Tube.{Tube, Stat, next_awaited_job}
use gostalkd.Core.Links.{list_empty, list_remove}
use gostalkd.Core.Wal.Record.{wal_write, wal_main}
use gostalkd.Core.Wal.Files.{same_address}
use gostalkd.Machine.Actions.{
  on_option, M, ◌>>=◌, ◌>>◌, return, done, read, modify, when, deref, lift, now, get_job,
  change_job, change_rec, change_links, get_tube, change_tube, change_tube_stat, change_stat,
  change_conn, while_some,
}
use gostalkd.Net.Conn.{silent, remove_waiting_coon, remove_this_reserved_job, reserve_job}
use gostalkd.Net.Reply.{reply_job, msg_reserved}

-- UrgentThreshold
abbrev pub urgent_threshold : ℕ
urgent_threshold = 1024

abbrev pub more_urgent : Stat → Stat
more_urgent s = record s { urgent_ct = add64 s.urgent_ct 1 }

abbrev pub less_urgent : Stat → Stat
less_urgent s = record s { urgent_ct = sub64 s.urgent_ct 1 }

-- j.Tube.Ready.Remove(j.HeapIndex)
unfoldable pub ready_remove : ℕ → M (Unit {0})
unfolding remove job_pri_less
ready_remove j = do
  x ← get_job j
  t ← deref x.tube
  tube ← get_tube t
  w ← read
  (item, rest) ← lift (remove (job_pri_less w.jobs.at) tube.ready x.heap_index)
  change_tube t (λ y. record y { ready = rest })

-- j.Tube.Delay.Remove(j.HeapIndex)
unfoldable pub delay_remove : ℕ → M (Unit {0})
unfolding remove job_delay_less
delay_remove j = do
  x ← get_job j
  t ← deref x.tube
  tube ← get_tube t
  w ← read
  (item, rest) ← lift (remove (job_delay_less w.jobs.at) tube.delay x.heap_index)
  change_tube t (λ y. record y { delay = rest })

-- the counters that follow a job out of the ready heap
unfoldable pub count_out : ℕ → M (Unit {0})
count_out j = do
  modify (λ w. record w { ready_ct = sub64 w.ready_ct 1 })
  x ← get_job j
  when (ltb x.r.pri urgent_threshold)
      (do change_stat less_urgent; t ← deref x.tube; change_tube_stat t less_urgent)

-- the test of the loop of processQueue
unfoldable pub next_awaited : ℕ → M (Option ℕ)
next_awaited t = do
  w ← read
  let (j, ts) = next_awaited_job w.jobs w.tubes t
  modify (λ v. record v { tubes = ts })
  return j

-- the body of the loop of processQueue
unfoldable pub serve : ℕ → M (Unit {0})
serve j = do
  ready_remove j
  count_out j
  x ← get_job j
  t ← deref x.tube
  tube ← get_tube t
  let (ci, ms, _) = Ms.take_next silent tube.waiting_conns tt
  change_tube t (λ y. record y { waiting_conns = ms })
  on_option ci done (λ c. (do
    change_stat (λ s. record s { reserved_ct = add64 s.reserved_ct 1 })
    remove_waiting_coon c
    reserve_job c j
    reply_job c j msg_reserved))

-- how many jobs stand in the ready heaps of the tubes
abbrev pub ready_total : (ℕ → Tube) → List ℕ → ℕ
ready_total at [] = 0
ready_total at (t ∷ ts) = length (at t).ready + ready_total at ts

-- processQueue; each round takes a job out of a ready heap
unfoldable pub process_queue : M (Unit {0})
unfolding next_awaited serve while_some ready_remove count_out next_awaited_job remove_waiting_coon
    reserve_job reply_job
process_queue = do
  t ← now
  w ← read
  while_some (ready_total w.tubes.at w.tubes.tubes.items + 1) (next_awaited t) serve

-- enqueueJob, the branch of the delay heap; a push never fails
unfoldable pub push_delayed : ℕ → ℕ → M (Unit {0})
unfolding push job_delay_less
push_delayed j delay = do
  u ← now
  change_rec j (λ r. record r { state = delayed; deadline_at = add64 u delay })
  x ← get_job j
  t ← deref x.tube
  tube ← get_tube t
  w ← read
  grown ← lift (push (job_delay_less w.jobs.at) tube.delay (record { value = j; index = 0 }))
  change_tube t (λ y. record y { delay = grown })

-- enqueueJob, the branch of the ready heap
unfoldable pub push_ready : ℕ → M (Unit {0})
unfolding push job_pri_less
push_ready j = do
  change_rec j (λ r. record r { state = ready })
  x ← get_job j
  t ← deref x.tube
  tube ← get_tube t
  w ← read
  grown ← lift (push (job_pri_less w.jobs.at) tube.ready (record { value = j; index = 0 }))
  change_tube t (λ y. record y { ready = grown })
  modify (λ v. record v { ready_ct = add64 v.ready_ct 1 })
  when (ltb x.r.pri urgent_threshold) (do change_stat more_urgent; change_tube_stat t more_urgent)

-- enqueueJob
unfoldable pub enqueue_job : ℕ → ℕ → Bool → M ℕ
unfolding push_delayed push_ready wal_write wal_main process_queue
enqueue_job j delay update_store = do
  change_job j (λ x. record x { reservoir = none })
  if positive delay then push_delayed j delay else push_ready j
  stored ← if update_store then wal_write j else return true
  if not stored then return 0 else (do when update_store wal_main; process_queue; return 1)

abbrev pub is_ready : JobState → Bool
is_ready ready = true
is_ready _ = false

abbrev pub is_reserved : JobState → Bool
is_reserved reserved = true
is_reserved _ = false

abbrev pub is_buried : JobState → Bool
is_buried buried = true
is_buried _ = false

abbrev pub is_delayed : JobState → Bool
is_delayed delayed = true
is_delayed _ = false

-- removeReadyJob
unfoldable pub remove_ready_job : Option ℕ → M (Option ℕ)
unfolding ready_remove count_out
remove_ready_job none = return none
remove_ready_job (some j) = do
  x ← get_job j
  if not (is_ready x.r.state)
      then return none
      else (do ready_remove j; count_out j; return (some j))

-- removeDelayedJob
unfoldable pub remove_delayed_job : Option ℕ → M (Option ℕ)
unfolding delay_remove
remove_delayed_job none = return none
remove_delayed_job (some j) = do
  x ← get_job j
  if not (is_delayed x.r.state) then return none else (do delay_remove j; return (some j))

abbrev pub less_buried : Stat → Stat
less_buried s = record s { buried_ct = sub64 s.buried_ct 1 }

-- removeBuriedJob
unfoldable pub remove_buried_job : Option ℕ → M (Option ℕ)
unfolding list_remove
remove_buried_job none = return none
remove_buried_job (some j) = do
  x ← get_job j
  if not (is_buried x.r.state) then return none else (do
    w ← read
    let (found, l) = list_remove w.jobs.links (some j)
    change_links (λ _. l)
    on_option found (return none) (λ a. (do
      change_stat less_buried
      t ← deref x.tube
      change_tube_stat t less_buried
      return (some a))))

-- isJobReservedByConn
unfoldable pub is_job_reserved_by_conn : ℕ → Option ℕ → M Bool
is_job_reserved_by_conn c none = return false
is_job_reserved_by_conn c (some j) = do
  x ← get_job j
  return (same_address x.reservoir (some c) && is_reserved x.r.state)

-- removeReservedJob
unfoldable pub remove_reserved_job : ℕ → Option ℕ → M (Option ℕ)
unfolding is_job_reserved_by_conn remove_this_reserved_job
remove_reserved_job c j = do
  mine ← is_job_reserved_by_conn c j
  if not mine then return none else (do a ← deref j; remove_this_reserved_job c a; return (some a))

-- touchJob
unfoldable pub touch_job : ℕ → Option ℕ → M Bool
unfolding is_job_reserved_by_conn
touch_job c j = do
  mine ← is_job_reserved_by_conn c j
  if not mine then return false else (do
    a ← deref j
    u ← now
    change_rec a (λ r. record r { deadline_at = add64 u r.ttr })
    change_conn c (λ x. record x { soonest_job = none })
    return true)

-- buriedJobP
unfoldable pub buried_job_p : ℕ → M Bool
unfolding list_empty
buried_job_p t = do w ← read; return (not (list_empty w.jobs.links (w.tubes.at t).buried))
