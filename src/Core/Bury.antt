-- ===== src/Core/Bury.antt =====
-- core/job.go: BuryJob.
pub mod Lists
mod Tests
use gostalkd.Prelude.{
  ℕ, Bool, true, false, not, Option, none, some, if◌then◌else◌, add64, add32, positive,
}
use gostalkd.Core.Job.{Job, JobRec, buried}
use gostalkd.Core.Tube.{Stat}
use gostalkd.Core.Links.{list_insert}
use gostalkd.Machine.{World}
use gostalkd.Machine.Actions.{
  M, ◌>>=◌, ◌>>◌, return, done, panic, when, deref, get_job, change_job, change_rec, change_links,
  get_tube, change_tube_stat, change_stat,
}
use gostalkd.Core.Wal.Space.{wal_resv_update}
use gostalkd.Core.Wal.Record.{wal_write, wal_main}

abbrev pub bump_buried : Stat → Stat
bump_buried s = record s { buried_ct = add64 s.buried_ct 1 }

-- the part of BuryJob between the two steps of the log: the arguments of JobListInsert are the
-- job and the head of the tube's list, in this order
unfoldable pub put_buried : ℕ → M (Unit {0})
unfolding list_insert
put_buried j = do
  x ← get_job j
  t ← deref x.tube
  tube ← get_tube t
  change_links (λ l. list_insert l j tube.buried)
  change_stat bump_buried
  change_tube_stat t bump_buried
  change_job j (λ y. record y { reservoir = none })
  change_rec j (λ r. record r { state = buried; bury_ct = add32 r.bury_ct 1 })

-- BuryJob
unfoldable pub bury_job : ℕ → Bool → M Bool
unfolding put_buried wal_resv_update wal_write wal_main
bury_job j update_store = if not update_store then (do put_buried j; return true) else (do
  z ← wal_resv_update
  if not (positive z) then return false else (do
    change_job j (λ y. record y { wal_resv = add64 y.wal_resv z })
    put_buried j
    written ← wal_write j
    if not written then return false else (do wal_main; return true)))
