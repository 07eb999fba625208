-- ===== src/Net/Quiet/Bodies.antt =====
-- What net/prot.go does with a job whose body has been read leaves lines and numbers alone.
use gostalkd.Prelude.{ℕ}
use gostalkd.Core.Wal.Quiet.{wal_resv_put-quiet}
use gostalkd.Machine.Frame.{Quiets, quiet}
use gostalkd.Net.Quiet.Conns.{bury_job-quiet, reply_msg-quiet, reply_err-quiet, reply_line-quiet}
use gostalkd.Net.Quiet.Queues.{enqueue_job-quiet}
use gostalkd.Net.Commands.Put.{insert_job, enqueue_in_coming_job, maybe_enqueue_in_coming_job}

insert_job-quiet : (c j : ℕ) → Quiets (insert_job c j)
unfolding insert_job
insert_job-quiet c j =
    search (enqueue_job-quiet, bury_job-quiet, reply_line-quiet, reply_err-quiet, quiet) depth 60
      fits 4000

enqueue_in_coming_job-quiet : (c : ℕ) → Quiets (enqueue_in_coming_job c)
unfolding enqueue_in_coming_job
enqueue_in_coming_job-quiet c =
    search (insert_job-quiet, wal_resv_put-quiet, reply_msg-quiet, reply_err-quiet, quiet) depth 60
      fits 4000

pub maybe_enqueue_in_coming_job-quiet : (c : ℕ) → Quiets (maybe_enqueue_in_coming_job c)
unfolding maybe_enqueue_in_coming_job
maybe_enqueue_in_coming_job-quiet c = search (enqueue_in_coming_job-quiet, quiet) depth 60 fits 4000
