-- ===== src/Net/Quiet/Dispatch.antt =====
-- What the commands of net/prot.go but put, use, watch and ignore leave alone.
use gostalkd.Prelude.{ℕ, true, false}
use gostalkd.Machine.{
  World, Op, op_unknown, op_put, op_peek_job, op_peek_ready, op_peek_delayed, op_peek_buried,
  op_reserve, op_reserve_timeout, op_reserve_job, op_delete, op_release, op_bury, op_kick,
  op_kick_job, op_touch, op_stats, op_stats_job, op_stats_tube, op_list_tubes, op_list_tube_used,
  op_list_tubes_watched, op_use, op_watch, op_ignore, op_quit, op_pause_tube,
}
use gostalkd.Machine.Frame.{Quiet, Quiets, Ends, Quiets-bind}
use gostalkd.Net.Quiet.Conns.{reply_msg-quiet}
use gostalkd.Net.Quiet.Handlers.{
  dispatch_op_peek_ready-quiet, dispatch_op_peek_delayed-quiet, dispatch_op_peek_buried-quiet,
  dispatch_op_peek_job-quiet, dispatch_op_reserve_timeout-quiet, dispatch_op_reserve-quiet,
  dispatch_op_reserve_job-quiet, dispatch_op_delete-quiet, dispatch_op_release-quiet,
  dispatch_op_bury-quiet, dispatch_op_kick-quiet, dispatch_op_kick_job-quiet,
  dispatch_op_touch-quiet, dispatch_op_quit-quiet,
}
use gostalkd.Net.Quiet.Lists.{
  dispatch_op_pause_tube-quiet, dispatch_op_list_tube_used-quiet, dispatch_op_list_tubes-quiet,
  dispatch_op_list_tubes_watched-quiet, dispatch_stats-quiet, dispatch_stats_job-quiet,
  dispatch_stats_tube-quiet,
}
use gostalkd.Net.Conn.{minus_one}
use gostalkd.Net.Commands.Dispatch.{dispatch_op}

-- The commands that neither name a tube to use, watch or ignore nor are followed by a body.
abbrev pub IsPlain : Op → Type 0
IsPlain op_put = ⊥
IsPlain op_use = ⊥
IsPlain op_watch = ⊥
IsPlain op_ignore = ⊥
IsPlain _ = Unit

-- the handlers of these commands, one by one
pub dispatch_op-quiet : (c : ℕ) (op : Op) → IsPlain op → Quiets (dispatch_op c op)
unfolding dispatch_op
dispatch_op-quiet c op_put h = absurd h
dispatch_op-quiet c op_use h = absurd h
dispatch_op-quiet c op_watch h = absurd h
dispatch_op-quiet c op_ignore h = absurd h
dispatch_op-quiet c op_peek_ready h = dispatch_op_peek_ready-quiet c
dispatch_op-quiet c op_peek_delayed h = dispatch_op_peek_delayed-quiet c
dispatch_op-quiet c op_peek_buried h = dispatch_op_peek_buried-quiet c
dispatch_op-quiet c op_peek_job h = dispatch_op_peek_job-quiet c
dispatch_op-quiet c op_reserve_timeout h =
    Quiets-bind (dispatch_op_reserve_timeout-quiet c) λ t. dispatch_op_reserve-quiet c false t
dispatch_op-quiet c op_reserve h = dispatch_op_reserve-quiet c true minus_one
dispatch_op-quiet c op_reserve_job h = dispatch_op_reserve_job-quiet c
dispatch_op-quiet c op_delete h = dispatch_op_delete-quiet c
dispatch_op-quiet c op_release h = dispatch_op_release-quiet c
dispatch_op-quiet c op_bury h = dispatch_op_bury-quiet c
dispatch_op-quiet c op_kick h = dispatch_op_kick-quiet c
dispatch_op-quiet c op_kick_job h = dispatch_op_kick_job-quiet c
dispatch_op-quiet c op_touch h = dispatch_op_touch-quiet c
dispatch_op-quiet c op_stats h = dispatch_stats-quiet c
dispatch_op-quiet c op_stats_job h = dispatch_stats_job-quiet c
dispatch_op-quiet c op_stats_tube h = dispatch_stats_tube-quiet c
dispatch_op-quiet c op_list_tubes h = dispatch_op_list_tubes-quiet c
dispatch_op-quiet c op_list_tube_used h = dispatch_op_list_tube_used-quiet c
dispatch_op-quiet c op_list_tubes_watched h = dispatch_op_list_tubes_watched-quiet c
dispatch_op-quiet c op_quit h = dispatch_op_quit-quiet c
dispatch_op-quiet c op_pause_tube h = dispatch_op_pause_tube-quiet c
dispatch_op-quiet c op_unknown h = reply_msg-quiet c _

-- Every command but put, use, watch and ignore panics, or leaves of every connection its Cmd, with
-- CmdRead and CmdLen, the tube that it uses and those that it watches, and leaves the list of tubes
-- and each tube's numbers of users and watchers.
pub dispatch_op-Quiet :
    (c : ℕ) (op : Op) (w : World) → IsPlain op → Ends (λ out. Quiet w out.1) (dispatch_op c op w)
dispatch_op-Quiet c op w h = (dispatch_op-quiet c op h).at w
