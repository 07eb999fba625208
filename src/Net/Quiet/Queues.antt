-- ===== src/Net/Quiet/Queues.antt =====
-- The queue and the kicking of jobs of net/prot.go leave lines and numbers alone.
use gostalkd.Prelude.{
  ℕ, zero, suc, ◌≡◌, ◌∙◌, refl, Bool, true, false, List, [], ◌∷◌, Option, none, some, update,
  if◌then◌else◌, arith,
}
use gostalkd.Core.Job.{Job}
use gostalkd.Core.Tube.{Tube, wake, is_paused, awaited_loop, next_awaited_job}
use gostalkd.Core.Wal.Quiet.{wal_resv_update-quiet, wal_write-quiet, wal_main-quiet}
use gostalkd.Machine.Frame.{Quiets, quiet, ends, numbers, update-keeps}
use gostalkd.Net.Quiet.Conns.{
  bury_job-quiet, remove_waiting_coon-quiet, reserve_job-quiet, reply_job-quiet,
  remove_this_reserved_job-quiet,
}
use gostalkd.Net.Queue.{
  ready_remove, delay_remove, count_out, next_awaited, serve, process_queue, push_delayed,
  push_ready, enqueue_job, remove_ready_job, remove_delayed_job, remove_buried_job,
  is_job_reserved_by_conn, remove_reserved_job, touch_job, buried_job_p,
}
use gostalkd.Net.Kick.{
  kick_buried_job, kick_delayed_job, kick_buried_jobs, kick_delayed_jobs, kick_jobs,
}

ready_remove-quiet : (j : ℕ) → Quiets (ready_remove j)
unfolding ready_remove
ready_remove-quiet j = search quiet depth 60 fits 4000

delay_remove-quiet : (j : ℕ) → Quiets (delay_remove j)
unfolding delay_remove
delay_remove-quiet j = search quiet depth 60 fits 4000

count_out-quiet : (j : ℕ) → Quiets (count_out j)
unfolding count_out
count_out-quiet j = search quiet depth 60 fits 4000

wake-numbers : (t : Tube) → numbers (wake t) ≡ numbers t
unfolding wake
wake-numbers t = ground arith

wake_one-numbers :
    (b : Bool) (tube : ℕ → Tube) (t a : ℕ)
    → numbers ((if b then tube else update tube t (wake (tube t))) a) ≡ numbers (tube a)
wake_one-numbers true tube t a = refl
wake_one-numbers false tube t a =
    update-keeps numbers tube t (wake (tube t)) (wake-numbers (tube t)) a

awaited_loop-numbers :
    (at : ℕ → Job) (now : ℕ) (ts : List ℕ) (tube : ℕ → Tube) (best : Option ℕ) (a : ℕ)
    → numbers ((awaited_loop at now ts tube best).1 a) ≡ numbers (tube a)
unfolding awaited_loop
awaited_loop-numbers at now [] tube best a = refl
awaited_loop-numbers at now (t ∷ ts) tube best a =
    awaited_loop-numbers at now ts _ _ a ∙ wake_one-numbers (is_paused (tube t) now) tube t a

next_awaited-quiet : (t : ℕ) → Quiets (next_awaited t)
unfolding next_awaited next_awaited_job
next_awaited-quiet t = record {
  at = λ w. ends record {
    lines = λ c. refl;
    counts = awaited_loop-numbers w.jobs.at t w.tubes.tubes.items w.tubes.at none;
    known = refl;
    fresh_tube = refl;
    fresh_conn = refl;
  };
}

serve-quiet : (j : ℕ) → Quiets (serve j)
unfolding serve
serve-quiet j =
    search
      (
        ready_remove-quiet, count_out-quiet, remove_waiting_coon-quiet, reserve_job-quiet,
        reply_job-quiet, quiet,
      )
      depth 60 fits 4000

pub process_queue-quiet : Quiets process_queue
unfolding process_queue
process_queue-quiet = search (next_awaited-quiet, serve-quiet, quiet) depth 60 fits 4000

push_delayed-quiet : (j delay : ℕ) → Quiets (push_delayed j delay)
unfolding push_delayed
push_delayed-quiet j delay = search quiet depth 60 fits 4000

push_ready-quiet : (j : ℕ) → Quiets (push_ready j)
unfolding push_ready
push_ready-quiet j = search quiet depth 60 fits 4000

pub enqueue_job-quiet : (j delay : ℕ) (b : Bool) → Quiets (enqueue_job j delay b)
unfolding enqueue_job
enqueue_job-quiet j delay b =
    search
      (
        push_delayed-quiet, push_ready-quiet, wal_write-quiet, wal_main-quiet, process_queue-quiet,
        quiet,
      )
      depth 60 fits 4000

pub remove_ready_job-quiet : (j : Option ℕ) → Quiets (remove_ready_job j)
unfolding remove_ready_job
remove_ready_job-quiet none = search quiet
remove_ready_job-quiet (some j) =
    search (ready_remove-quiet, count_out-quiet, quiet) depth 60 fits 4000

pub remove_delayed_job-quiet : (j : Option ℕ) → Quiets (remove_delayed_job j)
unfolding remove_delayed_job
remove_delayed_job-quiet none = search quiet
remove_delayed_job-quiet (some j) = search (delay_remove-quiet, quiet) depth 60 fits 4000

pub remove_buried_job-quiet : (j : Option ℕ) → Quiets (remove_buried_job j)
unfolding remove_buried_job
remove_buried_job-quiet none = search quiet
remove_buried_job-quiet (some j) = search quiet depth 60 fits 4000

is_job_reserved_by_conn-quiet : (c : ℕ) (j : Option ℕ) → Quiets (is_job_reserved_by_conn c j)
unfolding is_job_reserved_by_conn
is_job_reserved_by_conn-quiet c none = search quiet
is_job_reserved_by_conn-quiet c (some j) = search quiet depth 60 fits 4000

pub remove_reserved_job-quiet : (c : ℕ) (j : Option ℕ) → Quiets (remove_reserved_job c j)
unfolding remove_reserved_job
remove_reserved_job-quiet c j =
    search (is_job_reserved_by_conn-quiet, remove_this_reserved_job-quiet, quiet) depth 60 fits 4000

pub touch_job-quiet : (c : ℕ) (j : Option ℕ) → Quiets (touch_job c j)
unfolding touch_job
touch_job-quiet c j = search (is_job_reserved_by_conn-quiet, quiet) depth 60 fits 4000

pub buried_job_p-quiet : (t : ℕ) → Quiets (buried_job_p t)
unfolding buried_job_p
buried_job_p-quiet t = search quiet depth 60 fits 4000

pub kick_buried_job-quiet : (j : ℕ) → Quiets (kick_buried_job j)
unfolding kick_buried_job
kick_buried_job-quiet j =
    search
      (wal_resv_update-quiet, remove_buried_job-quiet, enqueue_job-quiet, bury_job-quiet, quiet)
      depth 60 fits 4000

pub kick_delayed_job-quiet : (j : ℕ) → Quiets (kick_delayed_job j)
unfolding kick_delayed_job
kick_delayed_job-quiet j =
    search (wal_resv_update-quiet, delay_remove-quiet, enqueue_job-quiet, bury_job-quiet, quiet)
      depth 60 fits 4000

kick_buried_jobs-quiet : (t n i : ℕ) → Quiets (kick_buried_jobs t n i)
unfolding kick_buried_jobs
kick_buried_jobs-quiet t zero i = search quiet
kick_buried_jobs-quiet t (suc n) i =
    search (kick_buried_jobs-quiet t n, buried_job_p-quiet, kick_buried_job-quiet, quiet) depth 60
      fits 4000

kick_delayed_jobs-quiet : (t n i : ℕ) → Quiets (kick_delayed_jobs t n i)
unfolding kick_delayed_jobs
kick_delayed_jobs-quiet t zero i = search quiet
kick_delayed_jobs-quiet t (suc n) i =
    search (kick_delayed_jobs-quiet t n, kick_delayed_job-quiet, quiet) depth 60 fits 4000

pub kick_jobs-quiet : (t n : ℕ) → Quiets (kick_jobs t n)
unfolding kick_jobs
kick_jobs-quiet t n =
    search (kick_buried_jobs-quiet, kick_delayed_jobs-quiet, buried_job_p-quiet, quiet) depth 60
      fits 4000
