-- ===== src/Net/Kick.antt =====
-- net/prot.go: kicking buried and delayed jobs back into the ready heap.
use gostalkd.Prelude.{
  ℕ, zero, suc, ◌+◌, Bool, true, false, not, some, ◌==◌, if◌then◌else◌, add64, add32, positive,
  length,
}
use gostalkd.Structure.Heap.{take_at}
use gostalkd.Core.Bury.{bury_job}
use gostalkd.Core.Wal.Space.{wal_resv_update}
use gostalkd.Machine.Actions.{
  on_option, M, ◌>>=◌, ◌>>◌, return, read, get_job, change_job, change_rec, get_tube,
}
use gostalkd.Net.Queue.{enqueue_job, remove_buried_job, delay_remove, buried_job_p}

-- kickBuriedJob
unfoldable pub kick_buried_job : ℕ → M Bool
unfolding wal_resv_update remove_buried_job enqueue_job bury_job
kick_buried_job j = do
  z ← wal_resv_update
  if not (positive z) then return false else (do
    change_job j (λ x. record x { wal_resv = add64 x.wal_resv z })
    _ ← remove_buried_job (some j)
    change_rec j (λ r. record r { kick_ct = add32 r.kick_ct 1 })
    r ← enqueue_job j 0 true
    if r == 1 then return true else (do _ ← bury_job j false; return false))

-- kickDelayedJob
unfoldable pub kick_delayed_job : ℕ → M Bool
unfolding wal_resv_update delay_remove enqueue_job bury_job
kick_delayed_job j = do
  z ← wal_resv_update
  if not (positive z) then return false else (do
    change_job j (λ x. record x { wal_resv = add64 x.wal_resv z })
    delay_remove j
    change_rec j (λ r. record r { kick_ct = add32 r.kick_ct 1 })
    r ← enqueue_job j 0 true
    if r == 1 then return true else (do
      x ← get_job j
      r' ← enqueue_job j x.r.delay false
      if r' == 1 then return false else (do _ ← bury_job j false; return false)))

-- kickBuriedJobs: `n` is what is left of the count, `i` how many were kicked
unfoldable pub kick_buried_jobs : ℕ → ℕ → ℕ → M ℕ
unfolding buried_job_p kick_buried_job
kick_buried_jobs t zero i = return i
kick_buried_jobs t (suc n) i = do
  some_buried ← buried_job_p t
  if not some_buried then return i else (do
    w ← read
    _ ← kick_buried_job (w.jobs.links.next (w.tubes.at t).buried)
    kick_buried_jobs t n (i + 1))

-- kickDelayedJobs
unfoldable pub kick_delayed_jobs : ℕ → ℕ → ℕ → M ℕ
unfolding kick_delayed_job take_at
kick_delayed_jobs t zero i = return i
kick_delayed_jobs t (suc n) i = do
  tube ← get_tube t
  if length tube.delay == 0
      then return i
      else on_option (take_at tube.delay 0) (kick_delayed_jobs t n (i + 1))
          (λ d. (do _ ← kick_delayed_job d.value; kick_delayed_jobs t n (i + 1)))

-- kickJobs
unfoldable pub kick_jobs : ℕ → ℕ → M ℕ
unfolding buried_job_p kick_buried_jobs kick_delayed_jobs
kick_jobs t n = do
  some_buried ← buried_job_p t
  if some_buried then kick_buried_jobs t n 0 else kick_delayed_jobs t n 0
