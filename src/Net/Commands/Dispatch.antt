-- ===== src/Net/Commands/Dispatch.antt =====
-- net/prot.go: dispatchCmd.
pub mod Guard
use gostalkd.Prelude.{ℕ, true, false, not, ◌==◌, if◌then◌else◌, sub64}
use gostalkd.Utils.Str.{str_len}
use gostalkd.Machine.{
  Op, op_unknown, op_put, op_peek_job, op_peek_ready, op_peek_delayed, op_peek_buried, op_reserve,
  op_reserve_timeout, op_reserve_job, op_delete, op_release, op_bury, op_kick, op_kick_job,
  op_touch, op_stats, op_stats_job, op_use, op_watch, op_ignore, op_list_tubes, op_list_tube_used,
  op_list_tubes_watched, op_stats_tube, op_quit, op_pause_tube,
}
use gostalkd.Machine.Actions.{M, ◌>>=◌, get_conn}
use gostalkd.Net.Protocol.{which_cmd}
use gostalkd.Net.Conn.{minus_one}
use gostalkd.Net.Reply.{reply_msg, msg_bad_format, msg_unknown_command}
use gostalkd.Net.Commands.{
  dispatch_op_peek_ready, dispatch_op_peek_delayed, dispatch_op_peek_buried, dispatch_op_peek_job,
}
use gostalkd.Net.Commands.Reserve.{
  dispatch_op_reserve, dispatch_op_reserve_timeout, dispatch_op_reserve_job, dispatch_op_touch,
  dispatch_op_quit,
}
use gostalkd.Net.Commands.Return.{dispatch_op_delete, dispatch_op_release, dispatch_op_bury}
use gostalkd.Net.Commands.Kick.{dispatch_op_kick, dispatch_op_kick_job}
use gostalkd.Net.Commands.Tubes.{
  dispatch_op_use, dispatch_op_watch, dispatch_op_ignore, dispatch_op_pause_tube,
  dispatch_op_list_tube_used,
}
use gostalkd.Net.Commands.Lists.{
  dispatch_stats, dispatch_stats_job, dispatch_stats_tube, dispatch_op_list_tubes,
  dispatch_op_list_tubes_watched,
}
use gostalkd.Net.Commands.Put.{dispatch_op_put}

-- the switch of dispatchCmd; the case of OpReserveTimeout falls through to that of OpReserve, also
-- after it has replied BAD_FORMAT
unfoldable pub dispatch_op : ℕ → Op → M (Unit {0})
unfolding dispatch_op_put dispatch_op_peek_ready dispatch_op_peek_delayed dispatch_op_peek_buried
    dispatch_op_peek_job dispatch_op_reserve_timeout dispatch_op_reserve dispatch_op_reserve_job
    dispatch_op_delete dispatch_op_release dispatch_op_bury dispatch_op_kick dispatch_op_kick_job
    dispatch_op_touch dispatch_stats dispatch_stats_job dispatch_stats_tube dispatch_op_list_tubes
    dispatch_op_list_tube_used dispatch_op_list_tubes_watched dispatch_op_use dispatch_op_watch
    dispatch_op_ignore dispatch_op_quit dispatch_op_pause_tube reply_msg
dispatch_op c op_put = dispatch_op_put c
dispatch_op c op_peek_ready = dispatch_op_peek_ready c
dispatch_op c op_peek_delayed = dispatch_op_peek_delayed c
dispatch_op c op_peek_buried = dispatch_op_peek_buried c
dispatch_op c op_peek_job = dispatch_op_peek_job c
dispatch_op c op_reserve_timeout = do
  timeout ← dispatch_op_reserve_timeout c
  dispatch_op_reserve c false timeout
dispatch_op c op_reserve = dispatch_op_reserve c true minus_one
dispatch_op c op_reserve_job = dispatch_op_reserve_job c
dispatch_op c op_delete = dispatch_op_delete c
dispatch_op c op_release = dispatch_op_release c
dispatch_op c op_bury = dispatch_op_bury c
dispatch_op c op_kick = dispatch_op_kick c
dispatch_op c op_kick_job = dispatch_op_kick_job c
dispatch_op c op_touch = dispatch_op_touch c
dispatch_op c op_stats = dispatch_stats c
dispatch_op c op_stats_job = dispatch_stats_job c
dispatch_op c op_stats_tube = dispatch_stats_tube c
dispatch_op c op_list_tubes = dispatch_op_list_tubes c
dispatch_op c op_list_tube_used = dispatch_op_list_tube_used c
dispatch_op c op_list_tubes_watched = dispatch_op_list_tubes_watched c
dispatch_op c op_use = dispatch_op_use c
dispatch_op c op_watch = dispatch_op_watch c
dispatch_op c op_ignore = dispatch_op_ignore c
dispatch_op c op_quit = dispatch_op_quit c
dispatch_op c op_pause_tube = dispatch_op_pause_tube c
dispatch_op c op_unknown = reply_msg c msg_unknown_command

-- dispatchCmd
unfoldable pub dispatch_cmd : ℕ → M (Unit {0})
unfolding str_len which_cmd dispatch_op reply_msg
dispatch_cmd c = do
  x ← get_conn c
  if not (str_len x.cmd == sub64 x.cmd_len 2)
      then reply_msg c msg_bad_format
      else dispatch_op c (which_cmd x.cmd)
