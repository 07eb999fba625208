-- ===== src/Net/Commands/Return.antt =====
-- net/prot.go: the handlers by which a connection gives up a job: delete, release and bury.
use gostalkd.Prelude.{
  ℕ, ◌%◌, true, false, not, Option, some, ◌==◌, if◌then◌else◌, add64, sub64, add32, mod32, positive,
}
use gostalkd.Core.Job.{invalid, job_find, job_free}
use gostalkd.Core.Tube.{Stat}
use gostalkd.Core.Bury.{bury_job}
use gostalkd.Core.Wal.Space.{wal_resv_update}
use gostalkd.Core.Wal.Record.{wal_write, wal_main}
use gostalkd.Machine.{op_delete, op_release, op_bury}
use gostalkd.Machine.Actions.{
  on_option, M, ◌>>=◌, ◌>>◌, return, read, deref, get_job, change_job, change_rec, change_jobs,
  change_tube_stat, change_stat, count_op,
}
use gostalkd.Net.Reply.{
  reply_msg, reply_err, msg_not_found, msg_deleted, msg_released, msg_buried, msg_internal_error,
  msg_out_of_memory,
}
use gostalkd.Net.Queue.{
  enqueue_job, remove_ready_job, remove_buried_job, remove_delayed_job, remove_reserved_job,
}
use gostalkd.Net.Commands.{with_int}

-- the chain of removals of dispatchOpDelete
abbrev or_try : M (Option ℕ) → M (Option ℕ) → M (Option ℕ)
or_try m k = m >>= λ a. on_option a k (λ j. return (some j))

unfoldable pub take_for_delete : ℕ → Option ℕ → M (Option ℕ)
unfolding remove_reserved_job remove_ready_job remove_buried_job remove_delayed_job
take_for_delete c j =
    or_try (remove_reserved_job c j)
      (or_try (remove_ready_job j) (or_try (remove_buried_job j) (remove_delayed_job j)))

abbrev count_delete : Stat → Stat
count_delete s = record s {
  total_jobs_ct = sub64 s.total_jobs_ct 1;
  total_delete_ct = add64 s.total_delete_ct 1;
}

-- dispatchOpDelete; "delete" has 6 bytes
unfoldable pub dispatch_op_delete : ℕ → M (Unit {0})
unfolding with_int job_find take_for_delete reply_msg reply_err wal_write wal_main job_free
dispatch_op_delete c = with_int c 6 λ id idx. do
  count_op op_delete
  w ← read
  taken ← take_for_delete c (job_find w.jobs id)
  on_option taken (reply_msg c msg_not_found) (λ j. (do
    x ← get_job j
    t ← deref x.tube
    change_tube_stat t count_delete
    change_stat count_delete
    change_rec j (λ r. record r { state = invalid })
    written ← wal_write j
    wal_main
    change_jobs (λ js. job_free js (some j))
    if not written then reply_err c msg_internal_error else reply_msg c msg_deleted))

-- the part of dispatchOpRelease that puts the job back
unfoldable pub release_job : ℕ → ℕ → ℕ → ℕ → M (Unit {0})
unfolding enqueue_job bury_job reply_msg
release_job c j pri delay = do
  change_rec j
      (λ r. record r { pri = pri % mod32; delay = delay; release_ct = add32 r.release_ct 1 })
  r ← enqueue_job j delay (not (positive delay))
  if r == 1 then reply_msg c msg_released else (do _ ← bury_job j false; reply_msg c msg_buried)

-- dispatchOpRelease; "release" has 7 bytes
unfoldable pub dispatch_op_release : ℕ → M (Unit {0})
unfolding with_int job_find remove_reserved_job reply_msg reply_err wal_resv_update release_job
dispatch_op_release c = with_int c 7 λ id i₁. with_int c i₁ λ pri i₂. with_int c i₂ λ delay i₃. do
  count_op op_release
  w ← read
  taken ← remove_reserved_job c (job_find w.jobs id)
  on_option taken (reply_msg c msg_not_found) (λ j.
      if not (positive delay) then release_job c j pri delay else (do
        z ← wal_resv_update
        if not (positive z) then reply_err c msg_out_of_memory else (do
          change_job j (λ x. record x { wal_resv = add64 x.wal_resv z })
          release_job c j pri delay)))

-- dispatchOpBury; it reads from byte 7 although "bury" has 4
unfoldable pub dispatch_op_bury : ℕ → M (Unit {0})
unfolding with_int job_find remove_reserved_job reply_msg reply_err bury_job
dispatch_op_bury c = with_int c 7 λ id i₁. with_int c i₁ λ pri i₂. do
  count_op op_bury
  w ← read
  taken ← remove_reserved_job c (job_find w.jobs id)
  on_option taken (reply_msg c msg_not_found) (λ j. (do
    change_rec j (λ r. record r { pri = pri % mod32 })
    put ← bury_job j true
    if not put then reply_err c msg_internal_error else reply_msg c msg_buried))
