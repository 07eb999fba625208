-- ===== src/Net/Quiet/Handlers.antt =====
-- The handlers of net/prot.go that take, return, kick, touch and show jobs leave lines and numbers
-- alone.
use gostalkd.Prelude.{ℕ, Bool, List, Option, none, some, refl}
use gostalkd.Structure.Heap.{Item}
use gostalkd.Core.Job.{JobState, invalid, ready, reserved, buried, delayed, copied, other}
use gostalkd.Core.Wal.Quiet.{wal_resv_update-quiet, wal_write-quiet, wal_main-quiet}
use gostalkd.Machine.Frame.{Quiets, quiet, ends, Quiet-same}
use gostalkd.Net.Quiet.Conns.{
  bury_job-quiet, reply_msg-quiet, reply_err-quiet, reply_line-quiet, reply_job-quiet,
  enqueue_waiting_conn-quiet, epoll_q_add-quiet, conn_set_worker-quiet, conn_dead_line_soon-quiet,
  conn_ready-quiet, reserve_job-quiet,
}
use gostalkd.Net.Quiet.Queues.{
  process_queue-quiet, enqueue_job-quiet, remove_ready_job-quiet, remove_delayed_job-quiet,
  remove_buried_job-quiet, remove_reserved_job-quiet, touch_job-quiet, buried_job_p-quiet,
  kick_jobs-quiet, kick_buried_job-quiet, kick_delayed_job-quiet,
}
use gostalkd.Net.Commands.{
  copy_of, reply_found, head_copy, dispatch_op_peek_ready, dispatch_op_peek_delayed,
  dispatch_op_peek_buried, dispatch_op_peek_job,
}
use gostalkd.Net.Commands.Reserve.{
  wait_for_job, dispatch_op_reserve, dispatch_op_reserve_timeout, take_for_reserve,
  dispatch_op_reserve_job, dispatch_op_touch, dispatch_op_quit,
}
use gostalkd.Net.Commands.Return.{
  take_for_delete, dispatch_op_delete, release_job, dispatch_op_release, dispatch_op_bury,
}
use gostalkd.Net.Commands.Kick.{dispatch_op_kick, dispatch_op_kick_job}
use gostalkd.Net.Quiet.Arguments.{with_int-quiet, with_exact-quiet}

copy_of-quiet : (j : Option ℕ) → Quiets (copy_of j)
unfolding copy_of
copy_of-quiet j = record { at = λ w. ends (Quiet-same refl refl refl) }

reply_found-quiet : (c : ℕ) (j : Option ℕ) → Quiets (reply_found c j)
unfolding reply_found
reply_found-quiet c none = search (reply_msg-quiet, reply_job-quiet, quiet) depth 60 fits 4000
reply_found-quiet c (some j) = search (reply_msg-quiet, reply_job-quiet, quiet) depth 60 fits 4000

head_copy-quiet : (items : List (Item ℕ)) → Quiets (head_copy items)
unfolding head_copy
head_copy-quiet items = search (copy_of-quiet, quiet) depth 60 fits 4000

pub dispatch_op_peek_ready-quiet : (c : ℕ) → Quiets (dispatch_op_peek_ready c)
unfolding dispatch_op_peek_ready
dispatch_op_peek_ready-quiet c =
    search (with_exact-quiet, head_copy-quiet, reply_found-quiet, quiet) depth 60 fits 4000

pub dispatch_op_peek_delayed-quiet : (c : ℕ) → Quiets (dispatch_op_peek_delayed c)
unfolding dispatch_op_peek_delayed
dispatch_op_peek_delayed-quiet c =
    search (with_exact-quiet, head_copy-quiet, reply_found-quiet, quiet) depth 60 fits 4000

pub dispatch_op_peek_buried-quiet : (c : ℕ) → Quiets (dispatch_op_peek_buried c)
unfolding dispatch_op_peek_buried
dispatch_op_peek_buried-quiet c =
    search (with_exact-quiet, buried_job_p-quiet, copy_of-quiet, reply_found-quiet, quiet) depth 60
      fits 4000

pub dispatch_op_peek_job-quiet : (c : ℕ) → Quiets (dispatch_op_peek_job c)
unfolding dispatch_op_peek_job
dispatch_op_peek_job-quiet c =
    search (with_int-quiet, copy_of-quiet, reply_found-quiet, quiet) depth 60 fits 4000

wait_for_job-quiet : (c timeout : ℕ) → Quiets (wait_for_job c timeout)
unfolding wait_for_job
wait_for_job-quiet c timeout =
    search (enqueue_waiting_conn-quiet, epoll_q_add-quiet, quiet) depth 60 fits 4000

pub dispatch_op_reserve-quiet :
    (c : ℕ) (b : Bool) (timeout : ℕ) → Quiets (dispatch_op_reserve c b timeout)
unfolding dispatch_op_reserve
dispatch_op_reserve-quiet c b timeout =
    search
      (
        wait_for_job-quiet, process_queue-quiet, reply_msg-quiet, conn_set_worker-quiet,
        conn_dead_line_soon-quiet, conn_ready-quiet, quiet,
      )
      depth 60 fits 4000

pub dispatch_op_reserve_timeout-quiet : (c : ℕ) → Quiets (dispatch_op_reserve_timeout c)
unfolding dispatch_op_reserve_timeout
dispatch_op_reserve_timeout-quiet c = search (reply_msg-quiet, quiet) depth 60 fits 4000

take_for_reserve-quiet : (j : ℕ) (s : JobState) → Quiets (take_for_reserve j s)
unfolding take_for_reserve
take_for_reserve-quiet j ready =
    search (remove_ready_job-quiet, remove_buried_job-quiet, remove_delayed_job-quiet, quiet) depth
      60 fits 4000
take_for_reserve-quiet j buried =
    search (remove_ready_job-quiet, remove_buried_job-quiet, remove_delayed_job-quiet, quiet) depth
      60 fits 4000
take_for_reserve-quiet j delayed =
    search (remove_ready_job-quiet, remove_buried_job-quiet, remove_delayed_job-quiet, quiet) depth
      60 fits 4000
take_for_reserve-quiet j invalid = search quiet
take_for_reserve-quiet j reserved = search quiet
take_for_reserve-quiet j copied = search quiet
take_for_reserve-quiet j (other n) = search quiet

pub dispatch_op_reserve_job-quiet : (c : ℕ) → Quiets (dispatch_op_reserve_job c)
unfolding dispatch_op_reserve_job
dispatch_op_reserve_job-quiet c =
    search
      (
        with_int-quiet, take_for_reserve-quiet, reply_msg-quiet, reply_err-quiet,
        conn_set_worker-quiet, reserve_job-quiet, reply_job-quiet, quiet,
      )
      depth 60 fits 4000

pub dispatch_op_touch-quiet : (c : ℕ) → Quiets (dispatch_op_touch c)
unfolding dispatch_op_touch
dispatch_op_touch-quiet c =
    search (with_int-quiet, touch_job-quiet, reply_msg-quiet, quiet) depth 60 fits 4000

pub dispatch_op_quit-quiet : (c : ℕ) → Quiets (dispatch_op_quit c)
unfolding dispatch_op_quit
dispatch_op_quit-quiet c = search quiet depth 60 fits 4000

take_for_delete-quiet : (c : ℕ) (j : Option ℕ) → Quiets (take_for_delete c j)
unfolding take_for_delete
take_for_delete-quiet c j =
    search
      (
        remove_reserved_job-quiet, remove_ready_job-quiet, remove_buried_job-quiet,
        remove_delayed_job-quiet, quiet,
      )
      depth 60 fits 4000

pub dispatch_op_delete-quiet : (c : ℕ) → Quiets (dispatch_op_delete c)
unfolding dispatch_op_delete
dispatch_op_delete-quiet c =
    search
      (
        with_int-quiet, take_for_delete-quiet, reply_msg-quiet, reply_err-quiet, wal_write-quiet,
        wal_main-quiet, quiet,
      )
      depth 60 fits 4000

release_job-quiet : (c j pri delay : ℕ) → Quiets (release_job c j pri delay)
unfolding release_job
release_job-quiet c j pri delay =
    search (enqueue_job-quiet, bury_job-quiet, reply_msg-quiet, quiet) depth 60 fits 4000

pub dispatch_op_release-quiet : (c : ℕ) → Quiets (dispatch_op_release c)
unfolding dispatch_op_release
dispatch_op_release-quiet c =
    search
      (
        with_int-quiet, remove_reserved_job-quiet, reply_msg-quiet, reply_err-quiet,
        wal_resv_update-quiet, release_job-quiet, quiet,
      )
      depth 60 fits 4000

pub dispatch_op_bury-quiet : (c : ℕ) → Quiets (dispatch_op_bury c)
unfolding dispatch_op_bury
dispatch_op_bury-quiet c =
    search
      (
        with_int-quiet, remove_reserved_job-quiet, reply_msg-quiet, reply_err-quiet, bury_job-quiet,
        quiet,
      )
      depth 60 fits 4000

pub dispatch_op_kick-quiet : (c : ℕ) → Quiets (dispatch_op_kick c)
unfolding dispatch_op_kick
dispatch_op_kick-quiet c =
    search (reply_msg-quiet, kick_jobs-quiet, reply_line-quiet, quiet) depth 60 fits 4000

pub dispatch_op_kick_job-quiet : (c : ℕ) → Quiets (dispatch_op_kick_job c)
unfolding dispatch_op_kick_job
dispatch_op_kick_job-quiet c =
    search (with_int-quiet, kick_buried_job-quiet, kick_delayed_job-quiet, reply_msg-quiet, quiet)
      depth 60 fits 4000
