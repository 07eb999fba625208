-- ===== src/Net/Quiet/Lists.antt =====
-- The handlers of pause-tube, of the lists and of the statistics (net/prot.go) leave lines and numbers alone.
use gostalkd.Prelude.{ℕ, List, Bytes}
use gostalkd.Machine.Actions.{M}
use gostalkd.Machine.Frame.{Quiets, quiet}
use gostalkd.Net.Quiet.Conns.{reply_msg-quiet, reply_err-quiet, reply_line-quiet}
use gostalkd.Net.Stats.{fmt_stats, fmt_stats_job, fmt_stats_tube}
use gostalkd.Net.Commands.Tubes.{
  pause_tube, dispatch_op_pause_tube, dispatch_op_list_tube_used, reply_watching,
}
use gostalkd.Net.Commands.Lists.{
  send_body, do_list_tubes, do_stats, dispatch_op_list_tubes, dispatch_op_list_tubes_watched,
  dispatch_stats, dispatch_stats_job, dispatch_stats_tube,
}
use gostalkd.Net.Quiet.Arguments.{
  on_parsed-quiet, with_int-quiet, with_name-quiet, with_exact-quiet,
}

pause_tube-quiet : (t delay : ℕ) → Quiets (pause_tube t delay)
unfolding pause_tube
pause_tube-quiet t delay = search quiet depth 60 fits 4000

pub dispatch_op_pause_tube-quiet : (c : ℕ) → Quiets (dispatch_op_pause_tube c)
unfolding dispatch_op_pause_tube
dispatch_op_pause_tube-quiet c =
    search
      (with_name-quiet, on_parsed-quiet, pause_tube-quiet, reply_msg-quiet, reply_line-quiet, quiet)
      depth 60 fits 4000

pub dispatch_op_list_tube_used-quiet : (c : ℕ) → Quiets (dispatch_op_list_tube_used c)
unfolding dispatch_op_list_tube_used
dispatch_op_list_tube_used-quiet c =
    search (with_exact-quiet, reply_line-quiet, quiet) depth 60 fits 4000

pub reply_watching-quiet : (c : ℕ) → Quiets (reply_watching c)
unfolding reply_watching
reply_watching-quiet c = search (reply_line-quiet, quiet) depth 60 fits 4000

send_body-quiet : (c size : ℕ) (body : Bytes) → Quiets (send_body c size body)
unfolding send_body
send_body-quiet c size body = search (reply_line-quiet, quiet) depth 60 fits 4000

do_list_tubes-quiet : (c : ℕ) (l : List ℕ) → Quiets (do_list_tubes c l)
unfolding do_list_tubes
do_list_tubes-quiet c l = search (send_body-quiet, quiet) depth 60 fits 4000

do_stats-quiet : (c : ℕ) (text : M Bytes) → Quiets text → Quiets (do_stats c text)
unfolding do_stats
do_stats-quiet c text h = search (send_body-quiet, quiet) depth 60 fits 4000

pub dispatch_op_list_tubes-quiet : (c : ℕ) → Quiets (dispatch_op_list_tubes c)
unfolding dispatch_op_list_tubes
dispatch_op_list_tubes-quiet c =
    search (with_exact-quiet, do_list_tubes-quiet, quiet) depth 60 fits 4000

pub dispatch_op_list_tubes_watched-quiet : (c : ℕ) → Quiets (dispatch_op_list_tubes_watched c)
unfolding dispatch_op_list_tubes_watched
dispatch_op_list_tubes_watched-quiet c =
    search (with_exact-quiet, do_list_tubes-quiet, quiet) depth 60 fits 4000

fmt_stats-quiet : Quiets fmt_stats
unfolding fmt_stats
fmt_stats-quiet = search quiet depth 60 fits 4000

fmt_stats_job-quiet : (j : ℕ) → Quiets (fmt_stats_job j)
unfolding fmt_stats_job
fmt_stats_job-quiet j = search quiet depth 60 fits 4000

fmt_stats_tube-quiet : (t : ℕ) → Quiets (fmt_stats_tube t)
unfolding fmt_stats_tube
fmt_stats_tube-quiet t = search quiet depth 60 fits 4000

pub dispatch_stats-quiet : (c : ℕ) → Quiets (dispatch_stats c)
unfolding dispatch_stats
dispatch_stats-quiet c =
    search (with_exact-quiet, do_stats-quiet, fmt_stats-quiet, quiet) depth 60 fits 4000

pub dispatch_stats_job-quiet : (c : ℕ) → Quiets (dispatch_stats_job c)
unfolding dispatch_stats_job
dispatch_stats_job-quiet c =
    search
      (with_int-quiet, do_stats-quiet, fmt_stats_job-quiet, reply_msg-quiet, reply_err-quiet, quiet)
      depth 60 fits 4000

pub dispatch_stats_tube-quiet : (c : ℕ) → Quiets (dispatch_stats_tube c)
unfolding dispatch_stats_tube
dispatch_stats_tube-quiet c =
    search (with_name-quiet, do_stats-quiet, fmt_stats_tube-quiet, reply_msg-quiet, quiet) depth 60
      fits 4000
