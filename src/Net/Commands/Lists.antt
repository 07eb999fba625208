-- ===== src/Net/Commands/Lists.antt =====
-- net/prot.go: the handlers whose reply has a body: the lists of tubes and the statistics.
pub mod Size
use gostalkd.Prelude.{
  ℕ, ◌+◌, not, List, [], ◌∷◌, ◌++◌, none, some, Bytes, codes, crlf, lf, if◌then◌else◌, sub64,
  length,
}
use gostalkd.Utils.Tube.{is_valid_tube}
use gostalkd.Core.Job.{copied, new_job, job_find}
use gostalkd.Core.Tube.{Tube, tube_find}
use gostalkd.Machine.{
  send_job, op_stats, op_stats_job, op_stats_tube, op_list_tubes, op_list_tubes_watched,
}
use gostalkd.Machine.Actions.{
  on_option, M, ◌>>=◌, ◌>>◌, read, modify, now, get_job, change_job, get_conn, change_conn,
  count_op,
}
use gostalkd.Net.Reply.{
  reply_msg, reply_err, reply_line, print_int, msg_bad_format, msg_not_found, msg_internal_error,
}
use gostalkd.Net.Stats.{fmt_stats, fmt_stats_job, fmt_stats_tube}
use gostalkd.Net.Commands.{with_int, with_exact}
use gostalkd.Net.Commands.Tubes.{with_name}

-- the two loops of doListTubes: the number of bytes, and the bytes
abbrev pub names_size : (ℕ → Tube) → List ℕ → ℕ
names_size at [] = 0
names_size at (t ∷ ts) = 3 + length (at t).name + names_size at ts

abbrev pub names_text : (ℕ → Tube) → List ℕ → Bytes
names_text at [] = []
names_text at (t ∷ ts) = codes "- " ++ (at t).name ++ lf ∷ names_text at ts

-- what doListTubes and doStats do with a body: a job of the given size that is marked as a copy
-- and has the body becomes the job to send
unfoldable pub send_body : ℕ → ℕ → Bytes → M (Unit {0})
unfolding new_job reply_line
send_body c size body = do
  u ← now
  w ← read
  let (a, js) = new_job w.jobs u size
  modify (λ v. record v { jobs = js })
  change_job a (λ x. record x { r = record (x.r) { state = copied }; body = body })
  change_conn c (λ x. record x { out_job = some a; out_job_sent = 0 })
  reply_line c send_job (codes "OK " ++ print_int (sub64 size 2) ++ crlf)

-- doListTubes
unfoldable pub do_list_tubes : ℕ → List ℕ → M (Unit {0})
unfolding send_body
do_list_tubes c l = do
  w ← read
  send_body c (6 + names_size w.tubes.at l) (codes "---" ++ lf ∷ names_text w.tubes.at l ++ crlf)

-- doStats, of a text
unfoldable pub do_stats : ℕ → M Bytes → M (Unit {0})
unfolding send_body
do_stats c text = do body ← text; send_body c (length body) body

-- dispatchOpListTubes; "list-tubes" has 10 bytes
unfoldable pub dispatch_op_list_tubes : ℕ → M (Unit {0})
unfolding with_exact do_list_tubes
dispatch_op_list_tubes c =
    with_exact c 10 (do count_op op_list_tubes; w ← read; do_list_tubes c w.tubes.tubes.items)

-- dispatchOpListTubesWatched; "list-tubes-watched" has 18 bytes
unfoldable pub dispatch_op_list_tubes_watched : ℕ → M (Unit {0})
unfolding with_exact do_list_tubes
dispatch_op_list_tubes_watched c =
    with_exact c 18
      (do count_op op_list_tubes_watched; x ← get_conn c; do_list_tubes c x.watch.items)

-- dispatchStats; "stats" has 5 bytes
unfoldable pub dispatch_stats : ℕ → M (Unit {0})
unfolding with_exact do_stats fmt_stats
dispatch_stats c = with_exact c 5 (do count_op op_stats; do_stats c fmt_stats)

-- dispatchStatsJob; "stats-job" has 9 bytes
unfoldable pub dispatch_stats_job : ℕ → M (Unit {0})
unfolding with_int job_find do_stats fmt_stats_job reply_msg reply_err
dispatch_stats_job c = with_int c 9 λ id idx. do
  count_op op_stats_job
  w ← read
  on_option (job_find w.jobs id) (reply_msg c msg_not_found) (λ j. (do
    x ← get_job j
    on_option x.tube (reply_err c msg_internal_error) (λ t. do_stats c (fmt_stats_job j))))

-- dispatchStatsTube; "stats-tube" has 10 bytes
unfoldable pub dispatch_stats_tube : ℕ → M (Unit {0})
unfolding with_name is_valid_tube tube_find do_stats fmt_stats_tube reply_msg
dispatch_stats_tube c = with_name c 10 λ name idx.
    if not (is_valid_tube name) then reply_msg c msg_bad_format else (do
      count_op op_stats_tube
      w ← read
      on_option (tube_find w.tubes name) (reply_msg c msg_not_found)
          (λ t. do_stats c (fmt_stats_tube t)))
